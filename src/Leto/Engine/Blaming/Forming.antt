-- ===== src/Leto/Engine/Blaming/Forming.antt =====
-- consensus/src/server/leto/phases/blame.rs: a quorum of blames is a certificate that every server
-- accepts.
use leto_rs.Prelude.{
  ℕ, ◌≡◌, refl, sym, ap, ◌∙◌, inl, inr, true, false, if◌then◌else◌, List, [], ◌∷◌, ◌++◌, map,
  nat_eq, nat_beq, nat_beq_iff, Map, insert, set_contains, length, All, Bool-cases, arith,
}
use mathlib.Core.Path.{subst}
use mathlib.Core.List.{append_assoc, append-nil}
use leto_rs.Prelude.Results.{ok, ◌>>=◌}
use leto_rs.Types.{
  Signature, Certificate, verify_without_id_check, verify_certificate, empty_certificate,
  add_signature, unique_len,
}
use leto_rs.Types.Quorum.{IsDistinct}
use leto_rs.Types.Signers.{ids, unique_len_distinct}
use leto_rs.Types.Verification.{IsSignedIn, verify_certificate_lem}
use leto_rs.Leto.Engine.{Platform, Server, highest_round, qc_len}
use leto_rs.Leto.Engine.Blaming.{add_all, add_blame, handle_blame, handle_blame_qc}

abbrev signatures : Map ℕ Signature → List Signature
signatures m = map (λ e. e.1) m

abbrev keys : Map ℕ Signature → List ℕ
keys m = map (λ e. e.0) m

add_all_lem :
    (m : Map ℕ Signature) (qc : Certificate) → (add_all m qc).raw_sigs ≡ qc.raw_sigs ++ signatures m
unfolding add_all add_signature
add_all_lem [] qc = sym (append-nil qc.raw_sigs)
add_all_lem ((k, auth) ∷ m) qc =
    add_all_lem m (add_signature qc auth) ∙ append_assoc qc.raw_sigs (auth ∷ []) (signatures m)

contains-keys :
    (j k : ℕ) (auth : Signature) (m : Map ℕ Signature)
    → nat_beq k j ≡ false
    → set_contains j (keys (insert k auth m)) ≡ set_contains j (keys m)
unfolding insert set_contains
contains-keys j k auth [] h = ground (arith, h)
contains-keys j k auth ((i, sig) ∷ m) h =
    ground (arith, nat_beq_iff i k, nat_beq_iff k j, nat_beq_iff i j, h, contains-keys j k auth m h)

keys-IsDistinct :
    (k : ℕ) (auth : Signature) (m : Map ℕ Signature)
    → IsDistinct (keys m)
    → IsDistinct (keys (insert k auth m))
unfolding insert set_contains
keys-IsDistinct k auth [] d = (refl, tt)
keys-IsDistinct k auth ((i, sig) ∷ m) d = elim (Bool-cases (nat_beq i k)) [
  | inl e ↦ rw (e) (subst (λ x. set_contains x (keys m) ≡ false) ((nat_beq_iff i k).0 e) d.0, d.1)
  | inr e ↦
      rw (e) (contains-keys i k auth m (ground (arith, e)) ∙ d.0, keys-IsDistinct k auth m d.1)
]

module _ {Tx H T R S PublicKey : Type 0} (platform : Platform Tx H T R S PublicKey) where
  -- The entry of a server is its signature on the round, under its key.
  abbrev pub IsBlame : Map ℕ PublicKey → ℕ → ℕ × Signature → Type 0
  IsBlame pk_map round e =
      (e.1.id ≡ e.0) × IsSignedIn platform.pk_verify pk_map (platform.hash_round round) e.1

  -- Blames of different servers for the round.
  pub record AreBlames (pk_map : Map ℕ PublicKey) (round : ℕ) (m : Map ℕ Signature) : Type 0 where
    pub distinct : IsDistinct (keys m)
    pub signed : All (IsBlame pk_map round) m

  insert-signed :
      (pk_map : Map ℕ PublicKey) (round : ℕ) (auth : Signature) (m : Map ℕ Signature)
      → IsBlame pk_map round (auth.id, auth)
      → All (IsBlame pk_map round) m
      → All (IsBlame pk_map round) (insert auth.id auth m)
  unfolding insert
  insert-signed pk_map round auth [] b h = (b, tt)
  insert-signed pk_map round auth ((i, sig) ∷ m) b h = elim (Bool-cases (nat_beq i auth.id)) [
    | inl e ↦ rw (e) (b, h.1)
    | inr e ↦ rw (e) (h.0, insert-signed pk_map round auth m b h.1)
  ]

  pub insert-AreBlames :
      (pk_map : Map ℕ PublicKey) (round : ℕ) (auth : Signature) (m : Map ℕ Signature)
      → IsSignedIn platform.pk_verify pk_map (platform.hash_round round) auth
      → AreBlames pk_map round m
      → AreBlames pk_map round (insert auth.id auth m)
  insert-AreBlames pk_map round auth m b v = record {
    distinct = keys-IsDistinct auth.id auth m v.distinct;
    signed = insert-signed pk_map round auth m (refl, b) v.signed;
  }

  keys_are_ids :
      (pk_map : Map ℕ PublicKey) (round : ℕ) (m : Map ℕ Signature)
      → All (IsBlame pk_map round) m
      → keys m ≡ ids (signatures m)
  keys_are_ids pk_map round [] h = refl
  keys_are_ids pk_map round ((i, sig) ∷ m) h = rw (h.0.0, keys_are_ids pk_map round m h.1) refl

  all_signed :
      (pk_map : Map ℕ PublicKey) (round : ℕ) (m : Map ℕ Signature)
      → All (IsBlame pk_map round) m
      → All (IsSignedIn platform.pk_verify pk_map (platform.hash_round round)) (signatures m)
  all_signed pk_map round [] h = tt
  all_signed pk_map round (e ∷ m) h = (h.0.1, all_signed pk_map round m h.1)

  length-signatures : (m : Map ℕ Signature) → length (signatures m) ≡ length m
  length-signatures [] = refl
  length-signatures (e ∷ m) = omega (arith, length-signatures m)

  -- The certificate made of blames verifies, and counts each of them.
  pub formed_certificate :
      (pk_map : Map ℕ PublicKey) (round : ℕ) (m : Map ℕ Signature)
      → AreBlames pk_map round m
      → let qc = add_all m empty_certificate in
        (verify_certificate platform.pk_verify qc (platform.hash_round round) pk_map ≡ true)
        × (unique_len qc ≡ length m)
  unfolding empty_certificate
  formed_certificate pk_map round m v =
      let qc = add_all m empty_certificate in
      let sigs : qc.raw_sigs ≡ signatures m = add_all_lem m empty_certificate in
      (
        (verify_certificate_lem platform.pk_verify qc (platform.hash_round round) pk_map).1
            (rw (sigs) (all_signed pk_map round m v.signed)),
        unique_len_distinct qc (rw (sigs, ← keys_are_ids pk_map round m v.signed) v.distinct)
            ∙ ap length sigs
            ∙ length-signatures m,
      )

  -- Where the map holds blames of the round and the blame verifies under the key of a known server,
  -- `handle_blame` of a round that has no proposal and no certificate yet files the blame under its
  -- server, and ends the round exactly if there are `qc_len` blames then: by a certificate that
  -- passes `verify` and that has `qc_len` different signers.
  pub handle_blame_lem :
      (s : Server platform) (round : ℕ) (auth : Signature)
      → nat_beq (highest_round s) round ≡ false
      → s.round_context.got_qc ≡ false
      → AreBlames s.crypto_system round s.round_context.blame_map
      → IsSignedIn platform.pk_verify s.crypto_system (platform.hash_round round) auth
      → let m = insert auth.id auth s.round_context.blame_map in
        let qc = add_all m empty_certificate in
        AreBlames s.crypto_system round m
        × (verify_certificate platform.pk_verify qc (platform.hash_round round) s.crypto_system
            ≡ true)
        × (unique_len qc ≡ length m)
        × (handle_blame platform s round auth ≡ (
            if nat_beq (length m) (qc_len s)
            then handle_blame_qc platform
                (record s {
                  round_context = record s.round_context { blame_map = []; got_qc = true };
                })
                round
                qc
            else ok (record s { round_context = record s.round_context { blame_map = m } })))
  unfolding handle_blame add_blame verify_without_id_check
  handle_blame_lem s round auth p g v (pk, k, w) =
      let blames =
        insert-AreBlames s.crypto_system round auth s.round_context.blame_map (pk, k, w) v in
      let (a, b) =
        formed_certificate s.crypto_system round (insert auth.id auth s.round_context.blame_map)
          blames in
      (blames, a, b, rw (p, g, k, ◌>>=◌, w) refl)
