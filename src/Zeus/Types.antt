-- ===== src/Zeus/Types.antt =====
-- consensus/src/types/zeus.rs: data blocks, attestations and blames. A hash is a number.
use leto_rs.Prelude.{ℕ, List, []}

pub record DataBlockEnvelope (Tx : Type 0) : Type 0 where
  pub epoch : ℕ
  pub height : ℕ
  pub payload : List Tx
  pub parent_hash : ℕ

pub record DataBlockSig : Type 0 where
  pub raw : List ℕ
  pub signer : ℕ

-- Without its cached hash, which is the envelope's.
pub record DataBlock (Tx : Type 0) : Type 0 where
  pub envelope : DataBlockEnvelope Tx
  pub sig : DataBlockSig

-- `DataBlock::genesis`, with `Hash::EMPTY_HASH` as a parameter.
unfoldable pub genesis_block : {Tx : Type 0} → ℕ → DataBlock Tx
genesis_block empty_hash = record {
  envelope = record { epoch = 0; height = 0; payload = []; parent_hash = empty_hash };
  sig = record { raw = []; signer = 0 };
}

pub record AttestationEnvelope : Type 0 where
  pub epoch_s : ℕ
  pub round_s : ℕ
  pub data_block_hash : ℕ
  pub data_block_height : ℕ
  pub data_block_epoch : ℕ
  pub parent_hash_s : ℕ

pub record Attestation : Type 0 where
  pub envelope : AttestationEnvelope
  pub sig_s : DataBlockSig

pub data BlameReason : Type 0 where
  silence : BlameReason
  equivocation : BlameReason

pub data BlamePayload (Tx : Type 0) : Type 0 where
  silent_since : ℕ → BlamePayload Tx
  two_blocks : ℕ → DataBlock Tx → DataBlock Tx → BlamePayload Tx

pub record EleaderBlame (Tx : Type 0) : Type 0 where
  pub epoch : ℕ
  pub reason : BlameReason
  pub payload : BlamePayload Tx
  pub signer : ℕ
  pub sig_raw : List ℕ

pub record EleaderChangeQc (Tx : Type 0) : Type 0 where
  pub epoch : ℕ
  pub blames : List (EleaderBlame Tx)

abbrev pub tag_eleader_blame : ℕ
tag_eleader_blame = 16

abbrev pub tag_reason_silence : ℕ
tag_reason_silence = 0

abbrev pub tag_reason_equivocation : ℕ
tag_reason_equivocation = 1
