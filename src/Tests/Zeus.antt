-- ===== src/Tests/Zeus.antt =====
-- consensus/src/server/zeus/chain_state/data_chain.rs: the theorems on a chain of three blocks and on
-- small certificates.
use leto_rs.Prelude.{
  suc, if◌then◌else◌, ℕ, ◌+◌, ◌*◌, ◌≡◌, refl, ◌↔◌, true, false, none, some, List, [], ◌∷◌, nat_eq,
  nat_beq, lookup, arith, Occurs, Map, set_contains, set_insert,
}
use leto_rs.Zeus.Types.{
  DataBlock, Attestation, EleaderBlame, EleaderChangeQc, silence, equivocation, silent_since,
  two_blocks,
}
use leto_rs.Zeus.DataChain.{
  DataBlockMeta, Cursor, conflicts_data_prefix, walk_down, Crypto, eleader, blame_signed_bytes,
  signed_parts, eleader_blame_valid, eleader_change_qc_valid, check_blames, reason_valid,
  equivocation_valid,
}
use leto_rs.Zeus.DataChain.Prefix.{IsRanked}
use leto_rs.Zeus.DataChain.Blames.{
  IsSigned, IsEvidence, eleader_blame_valid_lem, eleader_blame_valid_panic,
}
use leto_rs.Zeus.DataChain.Quorum.{honest_blamer}

abbrev meta0 : DataBlockMeta
meta0 = record { epoch = 0; height = 0; parent_hash = 9; hash = 0 }

abbrev pub meta1 : DataBlockMeta
meta1 = record { epoch = 1; height = 1; parent_hash = 0; hash = 5 }

abbrev pub db : Map ℕ DataBlockMeta
db = (0, meta0) ∷ (5, meta1) ∷ []

-- The candidate is the child of the block at height 1.
abbrev head : Cursor
head = record { cur_hash = 7; cur_height = 2; cur_parent = 5 }

abbrev pub pin : ℕ → ℕ → ℕ × Attestation
pin hash height = (
  1,
  record {
    envelope = record {
      epoch_s = 1;
      round_s = 1;
      data_block_hash = hash;
      data_block_height = height;
      data_block_epoch = 1;
      parent_hash_s = 0;
    };
    sig_s = record { raw = []; signer = 0 };
  },
)

-- The hash of the genesis block's parent comes first.
abbrev pub rank : ℕ → ℕ
rank h = if nat_beq h 9 then 0 else suc h

pub db-IsRanked : IsRanked rank db
unfolding lookup
db-IsRanked = record { hashes = λ h m e. ground (arith, e); above = λ h m e. ground (arith, e) }

no_conflict : conflicts_data_prefix 7 2 5 (pin 5 1 ∷ pin 0 0 ∷ []) db ≡ some false
unfolding conflicts_data_prefix walk_down lookup
no_conflict = refl

-- A key verifies the signatures that start with it.
abbrev crypto : Crypto ℕ ℕ
crypto = record {
  hash = λ e. e.epoch * 10 + e.height;
  hash_blame = λ b. b.epoch;
  as_ref = λ h. h ∷ [];
  verify = λ pk digest raw. elim raw [ [] ↦ false | x ∷ xs ↦ nat_beq x pk ];
}

abbrev keys : Map ℕ ℕ
keys = (0, 100) ∷ (1, 101) ∷ (2, 102) ∷ (3, 103) ∷ []

abbrev silence_by : ℕ → EleaderBlame ℕ
silence_by i = record {
  epoch = 1;
  reason = silence;
  payload = silent_since 4;
  signer = i;
  sig_raw = (100 + i) ∷ [];
}

abbrev pub signed_block : ℕ → DataBlock ℕ
signed_block epoch = record {
  envelope = record { epoch = epoch; height = 3; payload = []; parent_hash = 0 };
  sig = record { raw = 101 ∷ []; signer = 1 };
}

-- Leader 1's blocks of epochs 1 and 5 at one height.
abbrev twice : EleaderBlame ℕ
twice = record {
  epoch = 1;
  reason = equivocation;
  payload = two_blocks 3 (signed_block 1) (signed_block 5);
  signer = 2;
  sig_raw = 102 ∷ [];
}

accepted_across_epochs : eleader_blame_valid crypto twice keys 1 ≡ some true
unfolding eleader_blame_valid blame_signed_bytes signed_parts reason_valid equivocation_valid lookup
accepted_across_epochs = refl

eleader_blame_valid_lem_example : (eleader_blame_valid crypto twice keys 1 ≡ some true) ↔ (
    (digest : List ℕ) × (blame_signed_bytes crypto 1 twice.reason twice.payload ≡ some digest)
    × IsSigned crypto keys 2 digest twice.sig_raw
    × IsEvidence crypto keys 1 twice.reason twice.payload)
eleader_blame_valid_lem_example = eleader_blame_valid_lem crypto twice keys 1

abbrev mismatched : EleaderBlame ℕ
mismatched = record twice { payload = silent_since 4 }

eleader_blame_valid_panic_example : (eleader_blame_valid crypto mismatched keys 1 ≡ none) ↔ (
    ((pk : ℕ) × (lookup 2 keys ≡ some pk))
    × (mismatched.reason ≡ equivocation)
    × (h : ℕ) × (mismatched.payload ≡ silent_since h))
eleader_blame_valid_panic_example = eleader_blame_valid_panic crypto mismatched keys 1

abbrev qc : EleaderChangeQc ℕ
qc = record { epoch = 1; blames = silence_by 2 ∷ silence_by 3 ∷ [] }

qc_valid : eleader_change_qc_valid crypto qc keys 1 4 ≡ some true
unfolding eleader_change_qc_valid check_blames eleader_blame_valid blame_signed_bytes signed_parts
    reason_valid lookup set_insert set_contains
qc_valid = refl

honest_blamer_example :
    (b : EleaderBlame ℕ) × Occurs b qc.blames
    × (set_contains b.signer (3 ∷ []) ≡ false)
    × (b.epoch ≡ 1)
    × (eleader_blame_valid crypto b keys (eleader 1 4) ≡ some true)
honest_blamer_example = honest_blamer crypto qc keys 1 4 (3 ∷ []) qc_valid (omega arith)
