-- ===== src/Zeus/Attestations/Verdicts.antt =====
-- consensus/src/server/zeus/phases/attestation.rs: what each verdict of `attestation_valid` means.
use leto_rs.Prelude.{
  ℕ, ◌≡◌, refl, ◌⊎◌, inl, inr, Bool, true, false, none, some, nat_eq, lookup, All, Bool-cases,
  Option-cases, arith,
}
use leto_rs.Leto.RoundContext.{push}
use leto_rs.Zeus.Types.{Attestation}
use leto_rs.Zeus.DataChain.{DataBlockMeta, Cursor, data_chain_valid}
use leto_rs.Zeus.DataChain.Prefix.{IsRanked, Extends, conflicts_data_prefix_lem}
use leto_rs.Zeus.Attestations.{
  AttestationValidity, valid, invalid, parked, AttestationCrypto, ZeusView, signature_valid,
  prefix_check, park, attestation_valid,
}

-- The pinned block, as the start of the walk: with the height and the parent of the store.
abbrev pub pinned : Attestation → DataBlockMeta → Cursor
pinned att m = record {
  cur_hash = att.envelope.data_block_hash;
  cur_height = m.height;
  cur_parent = m.parent_hash;
}

module _ {PublicKey M : Type 0} (crypto : AttestationCrypto PublicKey) where
  abbrev pub IsSignedBy : ZeusView PublicKey M → Attestation → Bool → Type 0
  IsSignedBy z att b = signature_valid crypto (lookup att.sig_s.signer z.system) att ≡ b

  abbrev pub Verdict :
      AttestationValidity → ZeusView PublicKey M → Attestation → M → ZeusView PublicKey M → Type 0
  Verdict valid z att msg t =
      IsSignedBy z att true
      × (t ≡ z)
      × (m : DataBlockMeta) × (lookup att.envelope.data_block_hash z.meta ≡ some m)
      × All (Extends z.meta (pinned att m)) z.commit_lock
  Verdict invalid z att msg t =
      (t ≡ z)
      × (IsSignedBy z att false
          ⊎ ((m : DataBlockMeta) × (lookup att.envelope.data_block_hash z.meta ≡ some m)
              × (All (Extends z.meta (pinned att m)) z.commit_lock → ⊥)))
  Verdict (parked h) z att msg t =
      IsSignedBy z att true
      × (h ≡ att.envelope.data_block_hash)
      × (lookup h z.meta ≡ none)
      × (t.pending_attestations ≡ push h msg z.pending_attestations)

  pub attestation_valid_lem :
      (rank : ℕ → ℕ) (z : ZeusView PublicKey M) (att : Attestation) (msg : M)
      → IsRanked rank z.meta
      → (r : AttestationValidity) × (t : ZeusView PublicKey M) × (attestation_valid crypto z att msg
          ≡ some (r, t))
        × Verdict r z att msg t
  unfolding attestation_valid data_chain_valid prefix_check park
  attestation_valid_lem rank z att msg ranked =
      let h = att.envelope.data_block_hash in
      elim (Bool-cases (signature_valid crypto (lookup att.sig_s.signer z.system) att)) [
        | inr unsigned ↦ (invalid, z, ground (arith, unsigned), (refl, inl unsigned))
        | inl signed ↦ elim (Option-cases (lookup h z.meta)) [
          | inl e ↦ (
            parked h,
            record z { pending_attestations = push h msg z.pending_attestations },
            ground (arith, signed, e),
            (signed, refl, e, refl),
          )
          | inr (m, e) ↦
              let (b, f, i) =
                conflicts_data_prefix_lem rank z.meta (pinned att m) z.commit_lock ranked
                  (ranked.above h m e) in
              elim (Bool-cases b) [
                | inr clear ↦
                    (valid, z, ground (arith, signed, e, f, clear), (signed, refl, m, e, i.0 clear))
                | inl conflict ↦ (
                  invalid,
                  z,
                  ground (arith, signed, e, f, conflict),
                  (refl, inr (m, e, λ k. ground (arith, i.1 k, conflict))),
                )
              ]
        ]
      ]
