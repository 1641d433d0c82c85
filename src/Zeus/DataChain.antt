-- ===== src/Zeus/DataChain.antt =====
-- consensus/src/server/zeus/chain_state/data_chain.rs: which blocks, blames and change certificates
-- are valid, and which heads conflict with what is committed.
pub mod Prefix
pub mod Blames
pub mod Quorum
use leto_rs.Prelude.{
  ◌>>=◌, ℕ, zero, suc, ◌-◌, ◌/◌, ◌%◌, ◌^◌, ◌*◌, Bool, true, false, not, Option, none, some, List,
  [], ◌∷◌, ◌++◌, nat_eq, nat_beq, ltb, leb, if◌then◌else◌, Map, lookup, contains_key, set_insert,
  length,
}
use leto_rs.Zeus.Types.{
  DataBlockEnvelope, DataBlock, Attestation, BlameReason, silence, equivocation, BlamePayload,
  silent_since, two_blocks, EleaderBlame, EleaderChangeQc, tag_eleader_blame, tag_reason_silence,
  tag_reason_equivocation,
}

-- db.rs
pub record DataBlockMeta : Type 0 where
  pub epoch : ℕ
  pub height : ℕ
  pub parent_hash : ℕ
  pub hash : ℕ

-- `epoch_gate_valid`
unfoldable pub epoch_gate_valid :
    {Tx : Type 0} → DataBlock Tx → ℕ → Map ℕ (EleaderChangeQc Tx) → Bool
epoch_gate_valid block e_cur admitted_change_qcs =
    let block_epoch = block.envelope.epoch in
    if ltb block_epoch e_cur
    then false
    else if ltb e_cur block_epoch
    then contains_key (block_epoch - 1) admitted_change_qcs
    else true

-- `data_chain_valid`
unfoldable pub data_chain_valid : ℕ → Map ℕ DataBlockMeta → Bool
data_chain_valid hash db = contains_key hash db

-- The variables of the walk in `conflicts_data_prefix`.
pub record Cursor : Type 0 where
  pub cur_hash : ℕ
  pub cur_height : ℕ
  pub cur_parent : ℕ

abbrev pub at_meta : DataBlockMeta → Cursor
at_meta m = record { cur_hash = m.hash; cur_height = m.height; cur_parent = m.parent_hash }

-- The while loop, on fuel. `none` is out of fuel and `some none` a missing ancestor.
unfoldable pub walk_down : ℕ → Map ℕ DataBlockMeta → ℕ → Cursor → Option (Option ℕ)
walk_down zero db pinned_height cur = none
walk_down (suc fuel) db pinned_height cur =
    if ltb pinned_height cur.cur_height
    then elim (lookup cur.cur_parent db) [
      | none ↦ some none
      | some m ↦ walk_down fuel db pinned_height (at_meta m)
    ]
    else some (some cur.cur_hash)

-- `conflicts_data_prefix`; `none` is a walk out of fuel.
unfoldable pub conflicts_data_prefix :
    ℕ → ℕ → ℕ → List (ℕ × Attestation) → Map ℕ DataBlockMeta → Option Bool
unfolding walk_down
conflicts_data_prefix d_hash d_height d_parent [] db = some false
conflicts_data_prefix d_hash d_height d_parent ((r_s, att) ∷ commit_lock) db =
    let rest = conflicts_data_prefix d_hash d_height d_parent commit_lock db in
    let start : Cursor = record {
      cur_hash = d_hash;
      cur_height = d_height;
      cur_parent = d_parent;
    } in
    if leb att.envelope.data_block_height d_height
    then elim (walk_down (suc (length db)) db att.envelope.data_block_height start) [
      | none ↦ none
      | some none ↦ some true
      | some (some hash) ↦ if nat_beq hash att.envelope.data_block_hash then rest else some true
    ]
    else some true

-- The last of the entries with the largest key, as `max_by_key` keeps it.
unfoldable pub later_max : ℕ × Attestation → Option (ℕ × Attestation) → Option (ℕ × Attestation)
later_max p none = some p
later_max p (some q) =
    if ltb q.1.envelope.data_block_height p.1.envelope.data_block_height then some p else some q

unfoldable pub max_entry : List (ℕ × Attestation) → Option (ℕ × Attestation)
unfolding later_max
max_entry [] = none
max_entry (p ∷ ps) = later_max p (max_entry ps)

-- `latest_committed_attestation`
unfoldable pub latest_committed_attestation : List (ℕ × Attestation) → Option Attestation
unfolding max_entry
latest_committed_attestation commit_lock = do (r, att) ← max_entry commit_lock; some att

-- `eleader`, for a number of nodes that is not 0; the conversion to `Id` loses nothing on 64 bits.
unfoldable pub eleader : ℕ → ℕ → ℕ
eleader epoch num_nodes = epoch % num_nodes

pub record BlameSigned : Type 0 where
  pub tag : ℕ
  pub epoch : ℕ
  pub reason_tag : ℕ
  pub payload_bytes : List ℕ

-- `u64::to_le_bytes`, for the first `n` bytes.
unfoldable pub le_bytes : ℕ → ℕ → List ℕ
le_bytes zero x = []
le_bytes (suc n) x = x % 256 ∷ le_bytes n (x / 256)

-- `silence_payload_bytes`
unfoldable pub silence_payload_bytes : ℕ → List ℕ
unfolding le_bytes
silence_payload_bytes last_seen_height = le_bytes 8 last_seen_height

-- The crypto library: hashes of envelopes and of blames, the bytes of a hash, and signatures.
pub record Crypto (Tx PublicKey : Type 0) : Type 0 where
  pub hash : DataBlockEnvelope Tx → ℕ
  pub hash_blame : BlameSigned → ℕ
  pub as_ref : ℕ → List ℕ
  pub verify : PublicKey → List ℕ → List ℕ → Bool

module _ {Tx PublicKey : Type 0} (crypto : Crypto Tx PublicKey) where
  open crypto use {hash, hash_blame, as_ref, verify}

  -- `equivocation_payload_bytes`
  unfoldable pub equivocation_payload_bytes : DataBlock Tx → DataBlock Tx → List ℕ
  equivocation_payload_bytes block_a block_b =
      as_ref (hash block_a.envelope) ++ as_ref (hash block_b.envelope)

  -- The match of `blame_signed_bytes`; `none` is its panic.
  unfoldable pub signed_parts : BlameReason → BlamePayload Tx → Option (ℕ × List ℕ)
  unfolding silence_payload_bytes equivocation_payload_bytes
  signed_parts silence (silent_since h) = some (tag_reason_silence, silence_payload_bytes h)
  signed_parts silence (two_blocks height a b) = some (tag_reason_silence, silence_payload_bytes 0)
  signed_parts equivocation (silent_since h) = none
  signed_parts equivocation (two_blocks height a b) =
      some (tag_reason_equivocation, equivocation_payload_bytes a b)

  -- `blame_signed_bytes`
  unfoldable pub blame_signed_bytes : ℕ → BlameReason → BlamePayload Tx → Option (List ℕ)
  unfolding signed_parts
  blame_signed_bytes epoch reason payload = do
    (reason_tag, payload_bytes) ← signed_parts reason payload
    some (
        as_ref (
          hash_blame (record {
            tag = tag_eleader_blame;
            epoch = epoch;
            reason_tag = reason_tag;
            payload_bytes = payload_bytes;
          })))

  verify_known : Option PublicKey → List ℕ → List ℕ → Bool
  verify_known none digest raw = false
  verify_known (some pk) digest raw = verify pk digest raw

  -- The checks of an equivocation after the blamer's signature.
  unfoldable pub equivocation_valid : BlamePayload Tx → Map ℕ PublicKey → ℕ → Bool
  unfolding verify_known
  equivocation_valid (silent_since h) pk_map expected_eleader_id = false
  equivocation_valid (two_blocks height a b) pk_map expected_eleader_id =
      let eleader_pk = lookup expected_eleader_id pk_map in
      if nat_beq (hash a.envelope) (hash b.envelope)
      then false
      else if not (nat_beq a.envelope.height height)
      then false
      else if not (nat_beq b.envelope.height height)
      then false
      else if not (verify_known eleader_pk (as_ref (hash a.envelope)) a.sig.raw)
      then false
      else verify_known eleader_pk (as_ref (hash b.envelope)) b.sig.raw

  unfoldable pub reason_valid : BlameReason → BlamePayload Tx → Map ℕ PublicKey → ℕ → Bool
  unfolding equivocation_valid
  reason_valid silence payload pk_map expected_eleader_id = true
  reason_valid equivocation payload pk_map expected_eleader_id =
      equivocation_valid payload pk_map expected_eleader_id

  -- `eleader_blame_valid`; `none` is a panic.
  unfoldable pub eleader_blame_valid : EleaderBlame Tx → Map ℕ PublicKey → ℕ → Option Bool
  unfolding reason_valid
  eleader_blame_valid blame pk_map expected_eleader_id = elim (lookup blame.signer pk_map) [
    | none ↦ some false
    | some signer_pk ↦ do
      digest ← blame_signed_bytes blame.epoch blame.reason blame.payload
      some (
          if verify signer_pk digest blame.sig_raw
          then reason_valid blame.reason blame.payload pk_map expected_eleader_id
          else false)
  ]

  -- The loop of `eleader_change_qc_valid`: the set of signers, or `some none` where it returns
  -- `false`.
  unfoldable pub check_blames :
      List (EleaderBlame Tx) → ℕ → Map ℕ PublicKey → ℕ → List ℕ → Option (Option (List ℕ))
  check_blames [] epoch pk_map expected_eleader_id seen = some (some seen)
  check_blames (blame ∷ blames) epoch pk_map expected_eleader_id seen =
      let rest =
        check_blames blames epoch pk_map expected_eleader_id (set_insert blame.signer seen) in
      if not (nat_beq blame.epoch epoch)
      then some none
      else elim (eleader_blame_valid blame pk_map expected_eleader_id) [
        | none ↦ none
        | some false ↦ some none
        | some true ↦ rest
      ]

  -- `eleader_change_qc_valid`
  unfoldable pub eleader_change_qc_valid :
      EleaderChangeQc Tx → Map ℕ PublicKey → ℕ → ℕ → Option Bool
  unfolding check_blames eleader
  eleader_change_qc_valid qc pk_map num_faults num_nodes =
      elim (check_blames qc.blames qc.epoch pk_map (eleader qc.epoch num_nodes) []) [
        | none ↦ none
        | some none ↦ some false
        | some (some seen) ↦ some (ltb num_faults (length seen))
      ]
