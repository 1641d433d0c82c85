-- ===== src/Types.antt =====
-- consensus/src/types: signatures, certificates, blocks, proposals, chain elements and messages.
-- A hash is a number (its 32 bytes, read as one), and a signature's bytes a list of numbers.
pub mod Quorum
pub mod Signers
pub mod Verification
use leto_rs.Prelude.{
  ℕ, Bool, true, false, Option, none, some, List, [], ◌∷◌, ◌++◌, nat_eq, nat_beq, if◌then◌else◌,
  Map, lookup, set_insert, length,
}

-- sig.rs
pub record Signature : Type 0 where
  pub raw : List ℕ
  pub id : ℕ

-- cert.rs
pub record Certificate : Type 0 where
  pub raw_sigs : List Signature

-- block.rs
pub record Block : Type 0 where
  pub batch_hash : ℕ
  pub prev_hash : ℕ

-- proposal.rs
pub record Proposal : Type 0 where
  pub block : Block
  pub qc : Option (List Certificate)
  pub round : ℕ

-- element.rs
pub record Element (Tx : Type 0) : Type 0 where
  pub proposal : Proposal
  pub auth : Signature
  pub batch : List Tx

-- `Element::genesis`, with `Hash::EMPTY_HASH` as a parameter.
unfoldable pub genesis : {Tx : Type 0} → ℕ → ℕ → Element Tx
genesis empty_hash initial_leader = record {
  proposal = record {
    block = record { batch_hash = empty_hash; prev_hash = empty_hash };
    qc = none;
    round = 0;
  };
  auth = record { raw = []; id = initial_leader };
  batch = [];
}

-- request.rs
pub record Request : Type 0 where
  pub req_hash : ℕ

pub record Response (T : Type 0) : Type 0 where
  pub req_hash : ℕ
  pub response : T

-- msg.rs
pub data ProtocolMsg (Tx : Type 0) : Type 0 where
  propose : Proposal → Signature → List Tx → ℕ → ProtocolMsg Tx
  relay : Proposal → Signature → ℕ → ℕ → ProtocolMsg Tx
  blame : ℕ → Signature → ProtocolMsg Tx
  blame_qc : ℕ → Certificate → ProtocolMsg Tx
  batch_request : ℕ → Request → ProtocolMsg Tx
  batch_response : Response (List Tx) → ProtocolMsg Tx
  element_request : ℕ → Request → ProtocolMsg Tx
  element_response : Response (Element Tx) → ProtocolMsg Tx

module _ {PublicKey : Type 0} (pk_verify : PublicKey → ℕ → List ℕ → Bool) where
  -- `Signature::verify_without_id_check`; `false` is its error.
  unfoldable pub verify_without_id_check : Signature → ℕ → PublicKey → Bool
  verify_without_id_check sig msg_hash pk = pk_verify pk msg_hash sig.raw

  -- `Signature::verify`
  unfoldable pub verify_signature : Signature → ℕ → ℕ → PublicKey → Bool
  unfolding verify_without_id_check
  verify_signature sig msg_hash id pk =
      if nat_beq sig.id id then verify_without_id_check sig msg_hash pk else false

  verify_known : Signature → ℕ → Option PublicKey → Bool
  unfolding verify_without_id_check
  verify_known sig msg_hash none = false
  verify_known sig msg_hash (some pk) = verify_without_id_check sig msg_hash pk

  -- The loop of `Certificate::verify`; an unknown id is an error too.
  unfoldable pub verify_sigs : List Signature → ℕ → Map ℕ PublicKey → Bool
  unfolding verify_known
  verify_sigs [] msg_hash pk_map = true
  verify_sigs (sig ∷ sigs) msg_hash pk_map =
      if verify_known sig msg_hash (lookup sig.id pk_map)
      then verify_sigs sigs msg_hash pk_map
      else false

  unfoldable pub verify_certificate : Certificate → ℕ → Map ℕ PublicKey → Bool
  unfolding verify_sigs
  verify_certificate qc msg_hash pk_map = verify_sigs qc.raw_sigs msg_hash pk_map

unfoldable pub empty_certificate : Certificate
empty_certificate = record { raw_sigs = [] }

-- `Certificate::add`
unfoldable pub add_signature : Certificate → Signature → Certificate
add_signature qc sig = record qc { raw_sigs = qc.raw_sigs ++ sig ∷ [] }

unfoldable pub len : Certificate → ℕ
len qc = length qc.raw_sigs

signers : List Signature → List ℕ
signers [] = []
signers (sig ∷ sigs) = set_insert sig.id (signers sigs)

-- `Certificate::unique_len`
unfoldable pub unique_len : Certificate → ℕ
unfolding signers
unique_len qc = length (signers qc.raw_sigs)
