-- ===== src/Zeus/DataChain/Blames.antt =====
-- consensus/src/server/zeus/chain_state/data_chain.rs: which blames `eleader_blame_valid` accepts.
use leto_rs.Prelude.{
  ℕ, ◌≡◌, refl, ◌↔◌, ◌≢◌, true, Option, none, some, List, nat_eq, nat_beq_iff, Map, lookup,
  eq_of_some, arith,
}
use leto_rs.Zeus.Types.{
  BlameReason, silence, equivocation, BlamePayload, silent_since, two_blocks, EleaderBlame,
}
use leto_rs.Zeus.DataChain.{
  Crypto, blame_signed_bytes, signed_parts, verify_known, equivocation_valid, reason_valid,
  eleader_blame_valid,
}

module _ {Tx PublicKey : Type 0} (crypto : Crypto Tx PublicKey) where
  open crypto use {hash, as_ref, verify}

  -- A signature by a known server.
  abbrev pub IsSigned : Map ℕ PublicKey → ℕ → List ℕ → List ℕ → Type 0
  IsSigned pk_map id digest raw =
      (pk : PublicKey) × (lookup id pk_map ≡ some pk) × (verify pk digest raw ≡ true)

  -- What a blame proves beyond the blamer's signature.
  abbrev pub IsEvidence : Map ℕ PublicKey → ℕ → BlameReason → BlamePayload Tx → Type 0
  IsEvidence pk_map leader silence payload = Unit
  IsEvidence pk_map leader equivocation (silent_since h) = ⊥
  IsEvidence pk_map leader equivocation (two_blocks height a b) =
      (hash a.envelope ≢ hash b.envelope)
      × (a.envelope.height ≡ height)
      × (b.envelope.height ≡ height)
      × IsSigned pk_map leader (as_ref (hash a.envelope)) a.sig.raw
      × IsSigned pk_map leader (as_ref (hash b.envelope)) b.sig.raw

  known_lem :
      (o : Option PublicKey) (digest raw : List ℕ)
      → (verify_known crypto o digest raw ≡ true)
        ↔ ((pk : PublicKey) × (o ≡ some pk) × (verify pk digest raw ≡ true))
  unfolding verify_known
  known_lem none digest raw = ((λ h. cc), λ (pk, e, v). cc)
  known_lem (some pk) digest raw = ((λ h. (pk, refl, h)), λ (q, e, v). rw (eq_of_some pk q e) v)

  evidence_lem :
      (pk_map : Map ℕ PublicKey) (leader : ℕ) (payload : BlamePayload Tx)
      → (equivocation_valid crypto payload pk_map leader ≡ true)
        ↔ IsEvidence pk_map leader equivocation payload
  unfolding equivocation_valid
  evidence_lem pk_map leader (silent_since h) = ((λ e. cc), λ b. elim b [ ])
  evidence_lem pk_map leader (two_blocks height a b) =
      let leader_pk = lookup leader pk_map in
      let da = as_ref (hash a.envelope) in
      let db = as_ref (hash b.envelope) in
      let ia = known_lem leader_pk da a.sig.raw in
      let ib = known_lem leader_pk db b.sig.raw in
      (
        (λ e. (
          ground (arith, nat_beq_iff (hash a.envelope) (hash b.envelope)),
          ground arith,
          ground arith,
          ia.0 (ground arith),
          ib.0 (ground arith),
        )),
        λ (n, ha, hb, sa, sb).
            ground (arith, ia.1 sa, ib.1 sb, n, nat_beq_iff (hash a.envelope) (hash b.envelope)),
      )

  reason_lem :
      (pk_map : Map ℕ PublicKey) (leader : ℕ) (reason : BlameReason) (payload : BlamePayload Tx)
      → (reason_valid crypto reason payload pk_map leader ≡ true)
        ↔ IsEvidence pk_map leader reason payload
  unfolding reason_valid
  reason_lem pk_map leader silence payload = ((λ e. tt), λ u. refl)
  reason_lem pk_map leader equivocation payload = evidence_lem pk_map leader payload

  -- A blame is accepted exactly if the blamer is known and signed it, and, for an equivocation, it
  -- holds two blocks of the claimed height with different hashes, both signed by the leader: their
  -- epochs do not matter.
  pub eleader_blame_valid_lem :
      (blame : EleaderBlame Tx) (pk_map : Map ℕ PublicKey) (leader : ℕ)
      → (eleader_blame_valid crypto blame pk_map leader ≡ some true) ↔ (
          (digest : List ℕ) × (blame_signed_bytes crypto blame.epoch blame.reason blame.payload
            ≡ some digest)
          × IsSigned pk_map blame.signer digest blame.sig_raw
          × IsEvidence pk_map leader blame.reason blame.payload)
  unfolding eleader_blame_valid
  eleader_blame_valid_lem blame pk_map leader =
      go (lookup blame.signer pk_map)
        (blame_signed_bytes crypto blame.epoch blame.reason blame.payload) refl refl
    where
      go :
          (o : Option PublicKey) (d : Option (List ℕ))
          → lookup blame.signer pk_map ≡ o
          → blame_signed_bytes crypto blame.epoch blame.reason blame.payload ≡ d
          → (eleader_blame_valid crypto blame pk_map leader ≡ some true) ↔ (
              (digest : List ℕ) × (blame_signed_bytes crypto blame.epoch blame.reason blame.payload
                ≡ some digest)
              × IsSigned pk_map blame.signer digest blame.sig_raw
              × IsEvidence pk_map leader blame.reason blame.payload)
      go none d e f = ((λ h. ground (arith, e)), λ (digest, g, (pk, k, v), w). ground (arith, e, k))
      go (some pk) none e f =
          ((λ h. ground (arith, e, f)), λ (digest, g, s, w). ground (arith, f, g))
      go (some pk) (some digest) e f =
          let ir = reason_lem pk_map leader blame.reason blame.payload in
          (
            (λ h. (digest, f, (pk, e, ground (arith, e, f)), ir.0 (ground (arith, e, f)))),
            λ (other, g, (q, k, v), w). ground (arith, e, f, g, k, v, ir.1 w),
          )

  -- The check panics exactly on a blame by a known server that names an equivocation and carries the
  -- payload of a silence.
  pub eleader_blame_valid_panic :
      (blame : EleaderBlame Tx) (pk_map : Map ℕ PublicKey) (leader : ℕ)
      → (eleader_blame_valid crypto blame pk_map leader ≡ none) ↔ (
          ((pk : PublicKey) × (lookup blame.signer pk_map ≡ some pk))
          × (blame.reason ≡ equivocation)
          × (h : ℕ) × (blame.payload ≡ silent_since h))
  unfolding eleader_blame_valid blame_signed_bytes signed_parts
  eleader_blame_valid_panic blame pk_map leader =
      go (lookup blame.signer pk_map) blame.reason blame.payload refl refl refl
    where
      go :
          (o : Option PublicKey) (reason : BlameReason) (payload : BlamePayload Tx)
          → lookup blame.signer pk_map ≡ o
          → blame.reason ≡ reason
          → blame.payload ≡ payload
          → (eleader_blame_valid crypto blame pk_map leader ≡ none) ↔ (
              ((pk : PublicKey) × (lookup blame.signer pk_map ≡ some pk))
              × (blame.reason ≡ equivocation)
              × (h : ℕ) × (blame.payload ≡ silent_since h))
      go none reason payload e f g =
          ((λ h. ground (arith, e)), λ ((pk, k), w, n, z). ground (arith, e, k))
      go (some pk) equivocation (silent_since n) e f g =
          ((λ h. ((pk, e), f, n, g)), λ w. ground (arith, e, f, g))
      go (some pk) silence (silent_since n) e f g =
          ((λ h. ground (arith, e, f, g)), λ (w, k, n, z). ground (arith, f, k))
      go (some pk) silence (two_blocks n a b) e f g =
          ((λ h. ground (arith, e, f, g)), λ (w, k, n, z). ground (arith, f, k))
      go (some pk) equivocation (two_blocks n a b) e f g =
          ((λ h. ground (arith, e, f, g)), λ (w, k, n, z). ground (arith, g, z))
