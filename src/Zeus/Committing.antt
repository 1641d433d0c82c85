-- ===== src/Zeus/Committing.antt =====
-- consensus/src/server/zeus/phases/commit.rs: the commit of data blocks, with the part of the state in
-- zeus/core.rs that it works on.

pub mod Walks
pub mod Chain
pub mod Histories
pub mod Emission
use leto_rs.Prelude.{
  ◌>>=◌, ℕ, zero, suc, Bool, true, false, Option, none, some, List, [], ◌∷◌, ◌++◌, nat_eq, ltb, leb,
  not, max, if◌then◌else◌, Map, lookup, insert, length, wrapping_add,
}
use leto_rs.Zeus.Types.{DataBlock, Attestation}
use leto_rs.Zeus.DataChain.{DataBlockMeta}
use leto_rs.Zeus.Store.{DataBlockDb, Codec, insert_block, cache_get, with_byte_budget}

-- db.rs
pub data CommitItem (Tx : Type 0) : Type 0 where
  resident : DataBlock Tx → CommitItem Tx
  spilled : ℕ → CommitItem Tx

pub record ZeusCommittedAttestation : Type 0 where
  pub sig_round : ℕ
  pub attestation : Attestation

-- `child_of` is the data chain's. `commit_tx` is what was handed to the committer, the last list last.
pub record ZeusState (Tx : Type 0) : Type 0 where
  pub commit_lock : List (ℕ × Attestation)
  pub zeus_committed_high : ℕ
  pub last_committed_hash : ℕ
  pub child_of : Map ℕ ℕ
  pub data_block_db : DataBlockDb Tx
  pub commit_tx : List (List (CommitItem Tx))

abbrev pub pinned_height : ℕ × Attestation → ℕ
pinned_height (r, a) = a.envelope.data_block_height

-- The `retain` of the commit lock.
unfoldable pub retain_lock : ℕ → List (ℕ × Attestation) → List (ℕ × Attestation)
retain_lock h [] = []
retain_lock h (p ∷ ps) = if leb h (pinned_height p) then p ∷ retain_lock h ps else retain_lock h ps

-- Its `any`.
unfoldable pub already_covered : ℕ → List (ℕ × Attestation) → Bool
already_covered h [] = false
already_covered h (p ∷ ps) = if leb h (pinned_height p) then true else already_covered h ps

-- The commit lock after an attestation.
unfoldable pub update_lock :
    ZeusCommittedAttestation → List (ℕ × Attestation) → List (ℕ × Attestation)
unfolding retain_lock already_covered
update_lock committed commit_lock =
    let new_height = committed.attestation.envelope.data_block_height in
    let kept = retain_lock new_height commit_lock in
    if already_covered new_height kept
    then kept
    else kept ++ (committed.sig_round, committed.attestation) ∷ []

-- The variables of the walk.
pub record Walked (Tx : Type 0) : Type 0 where
  pub to_commit : List (CommitItem Tx)
  pub cur : ℕ
  pub last_hash : Option ℕ
  pub last_height : ℕ

module _ {Tx : Type 0} (codec : Codec Tx) where
  open codec use {hash}

  -- The child of the cursor and what is known of it; `none` is a break.
  unfoldable pub next_child : ZeusState Tx → ℕ → Option (ℕ × DataBlockMeta)
  next_child s cur = do
    child ← lookup cur s.child_of
    m ← lookup child s.data_block_db.meta
    some (child, m)

  unfoldable pub item_of : ZeusState Tx → ℕ → CommitItem Tx
  item_of s child = elim (cache_get codec s.data_block_db child) [
    | none ↦ spilled child
    | some b ↦ resident b
  ]

  abbrev pub step_to : ZeusState Tx → Walked Tx → ℕ → DataBlockMeta → Walked Tx
  step_to s w child m = record {
    to_commit = w.to_commit ++ item_of s child ∷ [];
    cur = child;
    last_hash = some child;
    last_height = m.height;
  }

  -- The loop, on fuel; `none` is out of fuel.
  unfoldable pub walk : ℕ → ZeusState Tx → ℕ → Walked Tx → Option (Walked Tx)
  unfolding next_child item_of
  walk zero s new_height w = none
  walk (suc fuel) s new_height w = elim (next_child s w.cur) [
    | none ↦ some w
    | some (child, m) ↦
        let rest = walk fuel s new_height (step_to s w child m) in
        if leb new_height m.height then some (step_to s w child m) else rest
  ]

  abbrev pub walk_start : ZeusState Tx → Walked Tx
  walk_start s = record {
    to_commit = [];
    cur = s.last_committed_hash;
    last_hash = none;
    last_height = s.zeus_committed_high;
  }

  -- What the walk leaves in the state.
  unfoldable pub hand_over : ZeusState Tx → Walked Tx → ZeusState Tx
  hand_over s w = elim w.last_hash [
    | none ↦ s
    | some last ↦ record s {
      zeus_committed_high = w.last_height;
      last_committed_hash = last;
      commit_tx = s.commit_tx ++ w.to_commit ∷ [];
    }
  ]

  -- `on_committed_attestation`; `none` is out of fuel.
  unfoldable pub on_committed_attestation :
      ZeusState Tx → ZeusCommittedAttestation → Option (ZeusState Tx)
  unfolding update_lock walk hand_over
  on_committed_attestation s committed =
      let new_height = committed.attestation.envelope.data_block_height in
      let t = record s { commit_lock = update_lock committed s.commit_lock } in
      if leb new_height t.zeus_committed_high
      then some t
      else do w ← walk (suc (length t.child_of)) t new_height (walk_start t); some (hand_over t w)

  -- data.rs: `insert_non_head`
  unfoldable pub insert_non_head : ZeusState Tx → DataBlock Tx → ℕ → ℕ → ZeusState Tx
  insert_non_head s block block_hash parent_hash = record s {
    data_block_db = insert_block codec s.data_block_db block;
    child_of = insert parent_hash block_hash s.child_of;
  }

-- What moves the state: an attestation of the commit task, a block admitted as the child of its
-- parent, and a height that the committer emitted.
pub data Event (Tx : Type 0) : Type 0 where
  committed : ZeusCommittedAttestation → Event Tx
  admitted : DataBlock Tx → Event Tx
  emitted : ℕ → Event Tx

module _ {Tx : Type 0} (codec : Codec Tx) where
  open codec use {hash}

  unfoldable pub step : ZeusState Tx → Event Tx → Option (ZeusState Tx)
  unfolding insert_non_head
  step s (committed c) = on_committed_attestation codec s c
  step s (admitted b) = some (insert_non_head codec s b (hash b.envelope) b.envelope.parent_hash)
  step s (emitted height) = some (record s {
    data_block_db = record s.data_block_db {
      emitted_high = max s.data_block_db.emitted_high height;
    };
  })

  unfoldable pub run : ZeusState Tx → List (Event Tx) → Option (ZeusState Tx)
  unfolding step
  run s [] = some s
  run s (e ∷ es) = do t ← step s e; run t es

  -- The fields as core.rs starts them, over a store with a budget.
  unfoldable pub start : ℕ → ZeusState Tx
  unfolding with_byte_budget
  start cap_bytes =
      let db = with_byte_budget codec cap_bytes 0 in
      record {
        commit_lock = [];
        zeus_committed_high = 0;
        last_committed_hash = db.genesis_hash;
        child_of = [];
        data_block_db = db;
        commit_tx = [];
      }

-- The committer: what it sent to the batcher, with the height, and to the application; the counters
-- that it shares; whether the application still receives.
pub record Committer (Tx : Type 0) : Type 0 where
  pub tx_consensus_to_batcher : List (List Tx × ℕ)
  pub tx_data_commit : List (List Tx)
  pub committed_tx_count : ℕ
  pub emitted_high : ℕ
  pub is_open : Bool

-- What `notify_read_as` comes to under a key: it returns the value, or an error of the read or of
-- `deserialize`; under a key that is absent it waits for the write, and for ever where none follows.
pub data Awaited (A : Type 0) : Type 0 where
  arrived : A → Awaited A
  read_failed : Awaited A
  never_written : Awaited A

-- How the task stands: it takes the next item, it has returned, or it waits for a write that never comes.
pub data TaskEnd : Type 0 where
  continuing returned waiting : TaskEnd

-- The rest of a task, which runs where the part before it is through.
abbrev pub follow : {A : Type 0} → A × TaskEnd → (A → A × TaskEnd) → A × TaskEnd
follow (a, continuing) rest = rest a
follow (a, returned) rest = (a, returned)
follow (a, waiting) rest = (a, waiting)

-- `read` is what a read under the hash comes to.
module _ {Tx : Type 0} (emit_dp : Bool) (read : ℕ → Awaited (DataBlock Tx)) where
  -- The block of an item.
  unfoldable pub block_of : CommitItem Tx → Awaited (DataBlock Tx)
  block_of (resident b) = arrived b
  block_of (spilled h) = read h

  -- The counter and the batcher for a payload that is not empty.
  unfoldable pub confirm : Committer Tx → List Tx → ℕ → Committer Tx
  confirm c payload height = record c {
    committed_tx_count =
        if emit_dp
        then wrapping_add c.committed_tx_count (length payload)
        else c.committed_tx_count;
    tx_consensus_to_batcher = c.tx_consensus_to_batcher ++ (payload, height) ∷ [];
  }

  unfoldable pub advance_emitted : Committer Tx → ℕ → Committer Tx
  advance_emitted c height = record c { emitted_high = max c.emitted_high height }

  -- The body of the loop after the read, and whether the task goes on.
  unfoldable pub emit : Committer Tx → List Tx → ℕ → Committer Tx × Bool
  unfolding confirm advance_emitted
  emit c [] height = (advance_emitted c height, true)
  emit c (tx ∷ txs) height =
      let d = confirm c (tx ∷ txs) height in
      if c.is_open
      then (
        advance_emitted (record d { tx_data_commit = d.tx_data_commit ++ (tx ∷ txs) ∷ [] }) height,
        true,
      )
      else (d, false)

  -- The loop over the items of a list.
  unfoldable pub emit_items : Committer Tx → List (CommitItem Tx) → Committer Tx × TaskEnd
  unfolding block_of emit
  emit_items c [] = (c, continuing)
  emit_items c (item ∷ items) = elim (block_of item) [
    | never_written ↦ (c, waiting)
    | read_failed ↦ emit_items c items
    | arrived b ↦
        let (d, continues) = emit c b.envelope.payload b.envelope.height in
        let rest = emit_items d items in if continues then rest else (d, returned)
  ]

  -- The task of `spawn_committer`, on the lists that it receives.
  unfoldable pub spawn_committer :
      Committer Tx → List (List (CommitItem Tx)) → Committer Tx × TaskEnd
  unfolding emit_items
  spawn_committer c [] = (c, continuing)
  spawn_committer c (items ∷ lists) = follow (emit_items c items) (λ d. spawn_committer d lists)
