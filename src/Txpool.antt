-- ===== src/Txpool.antt =====
-- consensus/src/server/tx_pool.rs: the pool's state and its operations.
pub mod OrderedMap
pub mod Sizes
pub mod Invariant
pub mod Filling
pub mod Committing
pub mod Rollback
pub mod Evolution
pub mod Histories
pub mod Lifecycle
pub mod Payload
use leto_rs.Prelude.{
  ℕ, ◌≡◌, Bool, true, false, Option, none, some, List, [], ◌∷◌, ltb, leb, nat_eq, pair_eq,
  if◌then◌else◌, is_some, unwrap_or, Map, lookup, insert, remove, contains_key, set_insert,
  set_remove, wrapping_add, wrapping_sub, ◌>>=◌,
}
unfoldable pub use OrderedMap.{TxKey, insert_ordered, range}

-- types/tx.rs: `client_id` and `nonce` of the trait. Not of this repository:
-- `bincode::serialized_size` (`none` is its error), and `reset` of the timer.
pub record Env (Tx T : Type 0) : Type 0 where
  pub client_id : Tx → ℕ
  pub nonce : Tx → ℕ
  pub serialized_size : Tx → Option ℕ
  pub reset : T → T

pub record InflightEntry (Tx : Type 0) : Type 0 where
  pub tx : Tx
  pub size : ℕ
  pub round : ℕ

pub record Txpool (Tx T : Type 0) : Type 0 where
  pub mineable : Map TxKey (Tx × ℕ)
  pub mineable_bytes : ℕ
  pub inflight : Map TxKey (InflightEntry Tx)
  pub inflight_by_round : Map ℕ (List TxKey)
  pub high_committed_nonce : Map ℕ ℕ
  pub batch_size : ℕ
  pub timer : T

-- `self.mineable_bytes -= sz`, if an entry was there.
unfoldable pub discount : {Tx : Type 0} → Option (Tx × ℕ) → ℕ → ℕ
discount none bytes = bytes
discount (some (_, sz)) bytes = wrapping_sub bytes sz

-- The set under `inflight_by_round[round]`, empty where there is none.
abbrev pub set_at : ℕ → Map ℕ (List TxKey) → List TxKey
set_at round index = unwrap_or (lookup round index) []

-- `by_round.insert(k)`
unfoldable pub index_key : ℕ → TxKey → Map ℕ (List TxKey) → Map ℕ (List TxKey)
index_key round k index = insert round (set_insert k (set_at round index)) index

-- `if let Some(set) = self.inflight_by_round.get_mut(&round) { set.remove(&key) }`
unfoldable pub unindex : ℕ → TxKey → Map ℕ (List TxKey) → Map ℕ (List TxKey)
unindex round key index = elim (lookup round index) [
  | none ↦ index
  | some set ↦ insert round (set_remove key set) index
]

unfoldable pub unindex_entry :
    {Tx : Type 0} → Option (InflightEntry Tx) → TxKey → Map ℕ (List TxKey) → Map ℕ (List TxKey)
unfolding unindex
unindex_entry none key index = index
unindex_entry (some e) key index = unindex e.round key index

module _ {Tx T : Type 0} where
  unfoldable pub new : ℕ → T → Txpool Tx T
  new batch_size timer = record {
    mineable = [];
    mineable_bytes = 0;
    inflight = [];
    inflight_by_round = [];
    high_committed_nonce = [];
    batch_size = batch_size;
    timer = timer;
  }

  -- `*self.high_committed_nonce.get(&c).unwrap_or(&0)`
  abbrev pub high : Txpool Tx T → ℕ → ℕ
  high p c = unwrap_or (lookup c p.high_committed_nonce) 0

  -- `inflight_by_round.entry(round).or_default()`
  unfoldable pub open_round : Txpool Tx T → ℕ → Txpool Tx T
  open_round p round = record p {
    inflight_by_round = insert round (set_at round p.inflight_by_round) p.inflight_by_round;
  }

  unfoldable pub ready : Txpool Tx T → Bool
  ready p = ltb p.batch_size p.mineable_bytes

module _ {Tx T : Type 0} (env : Env Tx T) where
  open env use {client_id, nonce, serialized_size, reset}

  abbrev pub tx_key : Tx → TxKey
  tx_key tx = (client_id tx, nonce tx)

  unfoldable pub add_tx : Txpool Tx T → Tx → ℕ → Txpool Tx T
  unfolding discount
  add_tx p tx size =
      if leb (nonce tx) (high p (client_id tx))
      then p
      else if contains_key (tx_key tx) p.inflight
      then p
      else record p {
        mineable = insert_ordered (tx_key tx) (tx, size) p.mineable;
        mineable_bytes =
            wrapping_add (discount (lookup (tx_key tx) p.mineable) p.mineable_bytes) size;
      }

  -- The size that an admitted transaction is booked with.
  unfoldable pub admitted_size : Tx → Option (Tx × ℕ) → ℕ
  admitted_size tx none = unwrap_or (serialized_size tx) 0
  admitted_size tx (some (_, sz)) = sz

  -- One round of the loop of `admit_proposal`.
  unfoldable pub admit_tx : Txpool Tx T → ℕ → Tx → Txpool Tx T
  unfolding discount admitted_size index_key
  admit_tx p round tx =
      if leb (nonce tx) (high p (client_id tx))
      then p
      else if contains_key (tx_key tx) p.inflight
      then p
      else record p {
        mineable = remove (tx_key tx) p.mineable;
        mineable_bytes = discount (lookup (tx_key tx) p.mineable) p.mineable_bytes;
        inflight =
            insert (tx_key tx)
              (record {
                tx = tx;
                size = admitted_size tx (lookup (tx_key tx) p.mineable);
                round = round;
              })
              p.inflight;
        inflight_by_round = index_key round (tx_key tx) p.inflight_by_round;
      }

  unfoldable pub admit_txs : Txpool Tx T → ℕ → List Tx → Txpool Tx T
  admit_txs p round [] = p
  admit_txs p round (tx ∷ txs) = admit_txs (admit_tx p round tx) round txs

  unfoldable pub admit_proposal : Txpool Tx T → List Tx → ℕ → Txpool Tx T
  admit_proposal p batch round = admit_txs (open_round p round) round batch

  -- The body of the loop of `make_batch`, for the first entry of `mineable`; `rest` follows it.
  unfoldable pub promote : Txpool Tx T → ℕ → TxKey → Tx → ℕ → Map TxKey (Tx × ℕ) → Txpool Tx T
  unfolding index_key
  promote p round key tx size rest = record p {
    mineable = rest;
    mineable_bytes = wrapping_sub p.mineable_bytes size;
    inflight = insert key (record { tx = tx; size = size; round = round }) p.inflight;
    inflight_by_round = index_key round key p.inflight_by_round;
  }

  abbrev push_tx : Tx → Txpool Tx T × List Tx → Txpool Tx T × List Tx
  push_tx tx (p, payload) = (p, tx ∷ payload)

  -- The loop, over the entries of `mineable` that are left; the payload in the order of `push`.
  unfoldable pub fill : Txpool Tx T → ℕ → ℕ → Map TxKey (Tx × ℕ) → Txpool Tx T × List Tx
  fill p round batch_bytes [] = (p, [])
  fill p round batch_bytes ((key, (tx, size)) ∷ rest) =
      let more =
        push_tx tx
          (fill (promote p round key tx size rest) round (wrapping_add batch_bytes size) rest) in
      if ltb batch_bytes p.batch_size then more else (p, [])

  -- `self.timer.reset()`
  unfoldable pub reset_timer : Txpool Tx T → Txpool Tx T
  reset_timer p = record p { timer = reset p.timer }

  unfoldable pub make_batch : Txpool Tx T → ℕ → Txpool Tx T × List Tx
  unfolding reset_timer
  make_batch p round =
      let (q, payload) = fill (open_round p round) round 0 p.mineable in (reset_timer q, payload)

  -- One round of the first loop of `commit`.
  unfoldable pub commit_tx : Txpool Tx T → Tx → Txpool Tx T
  unfolding discount unindex_entry
  commit_tx p tx = record p {
    inflight = remove (tx_key tx) p.inflight;
    inflight_by_round =
        unindex_entry (lookup (tx_key tx) p.inflight) (tx_key tx) p.inflight_by_round;
    mineable = remove (tx_key tx) p.mineable;
    mineable_bytes = discount (lookup (tx_key tx) p.mineable) p.mineable_bytes;
    high_committed_nonce =
        insert (client_id tx)
          (if ltb (high p (client_id tx)) (nonce tx) then nonce tx else high p (client_id tx))
          p.high_committed_nonce;
  }

  unfoldable pub commit_txs : Txpool Tx T → List Tx → Txpool Tx T
  commit_txs p [] = p
  commit_txs p (tx ∷ txs) = commit_txs (commit_tx p tx) txs

  -- The set `touched` after the first loop, in the order in which the second one walks it.
  unfoldable pub touched : List ℕ → List Tx → List ℕ
  touched seen [] = seen
  touched seen (tx ∷ txs) = touched (set_insert (client_id tx) seen) txs

  unfoldable pub drop_mineable : Txpool Tx T → TxKey → Txpool Tx T
  unfolding discount
  drop_mineable p k = record p {
    mineable = remove k p.mineable;
    mineable_bytes = discount (lookup k p.mineable) p.mineable_bytes;
  }

  unfoldable pub drop_stale : Txpool Tx T → List TxKey → Txpool Tx T
  drop_stale p [] = p
  drop_stale p (k ∷ stale) = drop_stale (drop_mineable p k) stale

  -- The second loop of `commit`; `none` is the panic of `unwrap`.
  unfoldable pub sweep : Txpool Tx T → List ℕ → Option (Txpool Tx T)
  sweep p [] = some p
  sweep p (c ∷ cs) = do
    hi ← lookup c p.high_committed_nonce
    sweep (drop_stale p (range (c, 0) (c, hi) p.mineable)) cs

  -- The index entry of the committed round goes, if it is empty.
  unfoldable pub close_round : Txpool Tx T → ℕ → Txpool Tx T
  close_round p round = elim (lookup round p.inflight_by_round) [
    | some [] ↦ record p { inflight_by_round = remove round p.inflight_by_round }
    | _ ↦ p
  ]

  unfoldable pub commit : Txpool Tx T → List Tx → ℕ → Option (Txpool Tx T)
  commit p batch round = do
    q ← sweep (commit_txs p batch) (touched [] batch)
    some (close_round q round)

  unfoldable pub requeue : Txpool Tx T → TxKey → Option (InflightEntry Tx) → Txpool Tx T
  requeue p k none = p
  requeue p k (some e) = record p {
    inflight = remove k p.inflight;
    mineable = insert_ordered k (e.tx, e.size) p.mineable;
    mineable_bytes = wrapping_add p.mineable_bytes e.size;
  }

  -- One key of a set that is rolled back.
  unfoldable pub rollback_key : Txpool Tx T → TxKey → Txpool Tx T
  unfolding requeue
  rollback_key p k =
      if leb k.1 (high p k.0)
      then record p { inflight = remove k p.inflight }
      else requeue p k (lookup k p.inflight)

  unfoldable pub rollback_keys : Txpool Tx T → List TxKey → Txpool Tx T
  rollback_keys p [] = p
  rollback_keys p (k ∷ ks) = rollback_keys (rollback_key p k) ks

  unfoldable pub rollback_round : Txpool Tx T → ℕ → Txpool Tx T
  rollback_round p r = elim (lookup r p.inflight_by_round) [
    | none ↦ p
    | some set ↦ rollback_keys (record p { inflight_by_round = remove r p.inflight_by_round }) set
  ]

  unfoldable pub rollback : Txpool Tx T → List ℕ → Txpool Tx T
  rollback p [] = p
  rollback p (r ∷ rounds) = rollback (rollback_round p r) rounds
