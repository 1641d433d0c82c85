-- ===== src/Tests/Attestations.antt =====
-- consensus/src/server/zeus/phases/attestation.rs: verdicts over the chain of Tests/Zeus.
use leto_rs.Prelude.{ℕ, ◌≡◌, refl, inl, true, some, [], ◌∷◌, nat_eq, lookup, arith}
use leto_rs.Zeus.Attestations.{
  AttestationValidity, valid, AttestationCrypto, ZeusView, attestation_valid,
}
use leto_rs.Zeus.Attestations.Heights.{low_claim_blocks}
use leto_rs.Tests.Zeus.{db, rank, db-IsRanked, meta1, pin}

abbrev crypto : AttestationCrypto ℕ
crypto = record {
  hash = λ e. e.round_s;
  as_ref = λ h. h ∷ [];
  sign = λ digest. some digest;
  verify = λ pk digest raw. true;
}

-- The lock pins the block at height 1 and claims height 0 for it.
abbrev view : ZeusView ℕ ℕ
view = record {
  my_id = 0;
  signature_epoch = 1;
  head_hash = 5;
  head_height = 1;
  highest_hash = 0;
  system = (0, 100) ∷ [];
  meta = db;
  commit_lock = pin 5 0 ∷ [];
  pending_attestations = [];
}

stored : lookup 5 db ≡ some meta1
unfolding lookup
stored = refl

low_claim_blocks_example :
    (r : AttestationValidity) × (t : ZeusView ℕ ℕ) × (attestation_valid crypto view (pin 5 1).1 8
      ≡ some (r, t))
    × (r ≡ valid → ⊥)
low_claim_blocks_example =
    low_claim_blocks crypto rank view (pin 5 0) meta1 (pin 5 1).1 8 db-IsRanked (inl refl) stored
      (omega arith)
