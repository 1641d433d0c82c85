-- ===== src/Types/Verification.antt =====
-- consensus/src/types/cert.rs: what `Certificate::verify` checks.
use leto_rs.Prelude.{
  ℕ, ◌≡◌, refl, ◌↔◌, Bool, true, Option, none, some, List, [], ◌∷◌, nat_eq, Map, lookup, All, arith,
  eq_of_some,
}
use leto_rs.Types.{
  Signature, Certificate, verify_without_id_check, verify_known, verify_sigs, verify_certificate,
}

module _ {PublicKey : Type 0} (pk_verify : PublicKey → ℕ → List ℕ → Bool) where
  -- The signature is by a server of the map, under its key.
  abbrev pub IsSignedIn : Map ℕ PublicKey → ℕ → Signature → Type 0
  IsSignedIn pk_map msg_hash sig =
      (pk : PublicKey) × (lookup sig.id pk_map ≡ some pk) × (pk_verify pk msg_hash sig.raw ≡ true)

  known_lem :
      (o : Option PublicKey) (sig : Signature) (msg_hash : ℕ)
      → (verify_known pk_verify sig msg_hash o ≡ true)
        ↔ ((pk : PublicKey) × (o ≡ some pk) × (pk_verify pk msg_hash sig.raw ≡ true))
  unfolding verify_known verify_without_id_check
  known_lem none sig msg_hash = ((λ h. cc), λ (pk, e, v). cc)
  known_lem (some pk) sig msg_hash = ((λ h. (pk, refl, h)), λ (q, e, v). rw (eq_of_some pk q e) v)

  verify_sigs_lem :
      (sigs : List Signature) (msg_hash : ℕ) (pk_map : Map ℕ PublicKey)
      → (verify_sigs pk_verify sigs msg_hash pk_map ≡ true) ↔ All (IsSignedIn pk_map msg_hash) sigs
  unfolding verify_sigs
  verify_sigs_lem [] msg_hash pk_map = ((λ h. tt), λ k. refl)
  verify_sigs_lem (sig ∷ sigs) msg_hash pk_map =
      let i = known_lem (lookup sig.id pk_map) sig msg_hash in
      let j = verify_sigs_lem sigs msg_hash pk_map in
      ((λ h. (i.0 (ground arith), j.0 (ground arith))), λ (s, k). ground (arith, i.1 s, j.1 k))

  -- `verify` accepts a certificate exactly if each of its signatures is by a known server and
  -- verifies: neither their number nor that their servers differ is checked.
  pub verify_certificate_lem :
      (qc : Certificate) (msg_hash : ℕ) (pk_map : Map ℕ PublicKey)
      → (verify_certificate pk_verify qc msg_hash pk_map ≡ true)
        ↔ All (IsSignedIn pk_map msg_hash) qc.raw_sigs
  unfolding verify_certificate
  verify_certificate_lem qc msg_hash pk_map = verify_sigs_lem qc.raw_sigs msg_hash pk_map
