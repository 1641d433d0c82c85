-- ===== src/Hera/MultiDataChain.antt =====
-- consensus/src/server/hera/chain_state/multi_data_chain.rs: one data chain for each author.
pub mod Links
pub mod Walk
pub mod Drain
pub mod Heads
pub mod Climbing
pub mod Cases
pub mod Admission
pub mod Histories
pub mod Ranges
pub mod Untyped
use leto_rs.Prelude.{
  ◌>>=◌, ℕ, zero, suc, ◌<◌, Bool, true, false, Option, none, some, List, [], ◌∷◌, nat_eq, nat_beq,
  if◌then◌else◌, Map, lookup, insert, remove, contains_key, unwrap_or, length,
}
use leto_rs.Zeus.Types.{DataBlock, DataBlockEnvelope, genesis_block}
use leto_rs.Leto.RoundContext.{push}

pub record MultiAuthorDataChainState (Tx : Type 0) : Type 0 where
  pub heads : Map ℕ ℕ
  pub heights : Map ℕ ℕ
  pub committed_heights : Map ℕ ℕ
  pub child_of : Map ℕ ℕ
  pub pending_data_blocks : Map ℕ (List (DataBlock Tx))
  pub block_store : Map ℕ (DataBlock Tx)

pub data AdmitTypedResult : Type 0 where
  extended : AdmitTypedResult
  bridge : AdmitTypedResult
  parked : ℕ → AdmitTypedResult
  duplicate : AdmitTypedResult
  invalid : AdmitTypedResult

-- The crypto library: the hash of an envelope and `Hash::EMPTY_HASH`. No chain of hashes comes back
-- to its start: there is a rank in which a block stands above its parent.
pub record Hashing (Tx : Type 0) : Type 0 where
  pub hash : DataBlockEnvelope Tx → ℕ
  pub empty_hash : ℕ
  pub rank : ℕ → ℕ
  pub rank_lem : (e : DataBlockEnvelope Tx) → rank e.parent_hash < rank (hash e)

-- The inserts of the loop of `new`, for one map.
unfoldable pub start_heights : List ℕ → ℕ → Map ℕ ℕ → Map ℕ ℕ
start_heights [] v m = m
start_heights (id ∷ ids) v m = start_heights ids v (insert id v m)

module _ {Tx : Type 0} (hashing : Hashing Tx) where
  open hashing use {hash, empty_hash}

  unfoldable pub genesis_hash : ℕ
  unfolding genesis_block
  genesis_hash = hash (genesis_block empty_hash).envelope

  unfoldable pub new : List ℕ → MultiAuthorDataChainState Tx
  new all_ids = record {
    heads = start_heights all_ids genesis_hash [];
    heights = start_heights all_ids 0 [];
    committed_heights = start_heights all_ids 0 [];
    child_of = [];
    pending_data_blocks = [];
    block_store = (genesis_hash, genesis_block empty_hash) ∷ [];
  }

  unfoldable pub head_height : MultiAuthorDataChainState Tx → ℕ → ℕ
  head_height s author = unwrap_or (lookup author s.heights) 0

  unfoldable pub committed_height : MultiAuthorDataChainState Tx → ℕ → ℕ
  committed_height s author = unwrap_or (lookup author s.committed_heights) 0

  -- The block is stored, as the child of its parent.
  unfoldable pub link : MultiAuthorDataChainState Tx → DataBlock Tx → MultiAuthorDataChainState Tx
  link s block = record s {
    block_store = insert (hash block.envelope) block s.block_store;
    child_of = insert block.envelope.parent_hash (hash block.envelope) s.child_of;
  }

  unfoldable pub set_head : MultiAuthorDataChainState Tx → ℕ → ℕ → ℕ → MultiAuthorDataChainState Tx
  set_head s author h height = record s {
    heads = insert author h s.heads;
    heights = insert author height s.heights;
  }

  -- The three lookups of `advance_head_via_child_of`; `none` is a break.
  unfoldable pub next_of : MultiAuthorDataChainState Tx → ℕ → Option (ℕ × DataBlock Tx)
  next_of s author = do
    current_head ← lookup author s.heads
    next_hash ← lookup current_head s.child_of
    b ← lookup next_hash s.block_store
    some (next_hash, b)

  -- Its loop, on fuel; `none` is out of fuel.
  unfoldable pub advance_head :
      ℕ → MultiAuthorDataChainState Tx → ℕ → Option (MultiAuthorDataChainState Tx)
  advance_head zero s author = none
  advance_head (suc fuel) s author = elim (next_of s author) [
    | none ↦ some s
    | some (next_hash, b) ↦ advance_head fuel (set_head s author next_hash b.envelope.height) author
  ]

  unfoldable pub advance_head_via_child_of :
      MultiAuthorDataChainState Tx → ℕ → Option (MultiAuthorDataChainState Tx)
  advance_head_via_child_of s author = advance_head (suc (length s.child_of)) s author

  -- The inner loop of `drain_pending_for_author`.
  unfoldable pub drain_block :
      MultiAuthorDataChainState Tx → ℕ → DataBlock Tx → MultiAuthorDataChainState Tx
  unfolding link set_head
  drain_block s author child =
      if nat_beq child.sig.signer author
      then set_head (link s child) author (hash child.envelope) child.envelope.height
      else link s child

  unfoldable pub drain_blocks :
      MultiAuthorDataChainState Tx → ℕ → List (DataBlock Tx) → MultiAuthorDataChainState Tx
  drain_blocks s author [] = s
  drain_blocks s author (b ∷ bs) = drain_blocks (drain_block s author b) author bs

  unfoldable pub take_parked : MultiAuthorDataChainState Tx → ℕ → MultiAuthorDataChainState Tx
  take_parked s h = record s { pending_data_blocks = remove h s.pending_data_blocks }

  -- Its outer loop, on fuel; `none` is out of fuel.
  unfoldable pub drain :
      ℕ → MultiAuthorDataChainState Tx → ℕ → Option (MultiAuthorDataChainState Tx)
  drain zero s author = none
  drain (suc fuel) s author = elim (lookup author s.heads) [
    | none ↦ some s
    | some head ↦ elim (lookup head s.pending_data_blocks) [
      | none ↦ some (take_parked s head)
      | some [] ↦ some (take_parked s head)
      | some (b ∷ bs) ↦ drain fuel (drain_blocks (take_parked s head) author (b ∷ bs)) author
    ]
  ]

  unfoldable pub drain_pending_for_author :
      MultiAuthorDataChainState Tx → ℕ → Option (MultiAuthorDataChainState Tx)
  drain_pending_for_author s author = drain (suc (length s.pending_data_blocks)) s author

  -- The first case, a child of the head.
  unfoldable pub extend :
      MultiAuthorDataChainState Tx
      → ℕ
      → DataBlock Tx
      → Option (AdmitTypedResult × MultiAuthorDataChainState Tx)
  extend s author block = do
    t ←
        drain_pending_for_author
          (set_head (link s block) author (hash block.envelope) block.envelope.height) author
    some (extended, t)

  -- The second case, a child of another stored block; indexing `heights` panics on a missing author.
  unfoldable pub bridge_over :
      MultiAuthorDataChainState Tx
      → ℕ
      → DataBlock Tx
      → Option (AdmitTypedResult × MultiAuthorDataChainState Tx)
  bridge_over s author block = do
    t ← advance_head_via_child_of (link s block) author
    cur_height ← lookup author t.heights
    u ← drain_pending_for_author t author
    some (bridge, u)

  -- `admit_typed`; `none` is a panic or a loop out of fuel.
  unfoldable pub admit_typed :
      MultiAuthorDataChainState Tx
      → DataBlock Tx
      → Option (AdmitTypedResult × MultiAuthorDataChainState Tx)
  admit_typed s block =
      let parent_hash = block.envelope.parent_hash in
      if contains_key (hash block.envelope) s.block_store
      then some (duplicate, s)
      else elim (lookup block.sig.signer s.heads) [
        | none ↦ some (invalid, s)
        | some head ↦
            if nat_beq parent_hash head
            then extend s block.sig.signer block
            else if contains_key parent_hash s.block_store
            then bridge_over s block.sig.signer block
            else if nat_beq parent_hash genesis_hash
            then some (invalid, s)
            else some (
              parked parent_hash,
              record s { pending_data_blocks = push parent_hash block s.pending_data_blocks },
            )
      ]
