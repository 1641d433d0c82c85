-- ===== src/Zeus/Store.antt =====
-- consensus/src/server/zeus/chain_state/db.rs: the block store with its bounded cache.
pub mod Sizes
pub mod Eviction
pub mod Insertion
pub mod Hashes
pub mod Index
use leto_rs.Prelude.{
  ℕ, suc, ◌+◌, ◌-◌, ◌*◌, ◌%◌, max, Bool, true, false, ◌&&◌, Option, none, some, List, [], ◌∷◌, ◌++◌,
  nat_eq, nat_beq, ltb, leb, if◌then◌else◌, Map, lookup, insert, remove, contains_key, wrapping_add,
  wrapping_sub, usize_mod, length,
}
use leto_rs.Zeus.Types.{DataBlock, DataBlockEnvelope, genesis_block}
use leto_rs.Zeus.DataChain.{DataBlockMeta}

-- `write_tx` is what was handed to the background writer, the last item last. The committer moves
-- `emitted_high` between the operations.
pub record DataBlockDb (Tx : Type 0) : Type 0 where
  pub write_tx : List (ℕ × List ℕ)
  pub emitted_high : ℕ
  pub meta : Map ℕ DataBlockMeta
  pub cache : Map ℕ (DataBlock Tx × ℕ)
  pub order : List ℕ
  pub resident_bytes : ℕ
  pub cap_bytes : ℕ
  pub genesis : DataBlock Tx
  pub genesis_hash : ℕ

-- The libraries: the envelope's hash, `Hash::EMPTY_HASH` and `bincode::serialize`.
pub record Codec (Tx : Type 0) : Type 0 where
  pub hash : DataBlockEnvelope Tx → ℕ
  pub empty_hash : ℕ
  pub serialize : DataBlock Tx → Option (List ℕ)

-- `DataBlockMeta::of`
unfoldable pub meta_of : {Tx : Type 0} → DataBlock Tx → ℕ → DataBlockMeta
meta_of block hash = record {
  epoch = block.envelope.epoch;
  height = block.envelope.height;
  parent_hash = block.envelope.parent_hash;
  hash = hash;
}

module _ {Tx : Type 0} (codec : Codec Tx) where
  open codec use {hash, empty_hash, serialize}

  -- `with_byte_budget`, without the task that writes.
  unfoldable pub with_byte_budget : ℕ → ℕ → DataBlockDb Tx
  unfolding meta_of genesis_block
  with_byte_budget cap_bytes emitted_high =
      let genesis = genesis_block empty_hash in
      let genesis_hash = hash genesis.envelope in
      record {
        write_tx = [];
        emitted_high = emitted_high;
        meta = (genesis_hash, meta_of genesis genesis_hash) ∷ [];
        cache = [];
        order = [];
        resident_bytes = 0;
        cap_bytes = max cap_bytes 1;
        genesis = genesis;
        genesis_hash = genesis_hash;
      }

  -- A block that leaves the cache goes to the writer, unless it was emitted.
  unfoldable pub spill : DataBlockDb Tx → ℕ → DataBlock Tx → Option (List ℕ) → DataBlockDb Tx
  spill s old evicted none = s
  spill s old evicted (some bytes) =
      if ltb s.emitted_high evicted.envelope.height
      then record s { write_tx = s.write_tx ++ (old, bytes) ∷ [] }
      else s

  unfoldable pub evict_block : DataBlockDb Tx → ℕ → Option (DataBlock Tx × ℕ) → DataBlockDb Tx
  unfolding spill
  evict_block s old none = s
  evict_block s old (some (evicted, sz)) =
      spill (record s { cache = remove old s.cache; resident_bytes = s.resident_bytes - sz }) old
        evicted (serialize evicted)

  -- The loop of `cache_put`, along the queue.
  unfoldable pub evict : DataBlockDb Tx → List ℕ → DataBlockDb Tx
  unfolding evict_block
  evict s [] = record s { order = [] }
  evict s (old ∷ order) =
      let rest = evict (evict_block s old (lookup old s.cache)) order in
      if ltb s.cap_bytes s.resident_bytes && ltb 1 (length s.cache)
      then rest
      else record s { order = old ∷ order }

  -- The match of `cache_put`.
  unfoldable pub cache_insert :
      DataBlockDb Tx → ℕ → DataBlock Tx → ℕ → Option (DataBlock Tx × ℕ) → DataBlockDb Tx
  cache_insert s h block size none = record s {
    cache = insert h (block, size) s.cache;
    order = s.order ++ h ∷ [];
    resident_bytes = wrapping_add s.resident_bytes size;
  }
  cache_insert s h block size (some (_, old_size)) = record s {
    cache = insert h (block, size) s.cache;
    resident_bytes = wrapping_sub (wrapping_add s.resident_bytes size) old_size;
  }

  -- `cache_put`
  unfoldable pub cache_put : DataBlockDb Tx → ℕ → DataBlock Tx → ℕ → DataBlockDb Tx
  unfolding evict cache_insert
  cache_put s h block size =
      let t = cache_insert s h block size (lookup h s.cache) in evict t t.order

  -- `insert`
  unfoldable pub insert_block : DataBlockDb Tx → DataBlock Tx → DataBlockDb Tx
  unfolding cache_put meta_of
  insert_block s block =
      let h = hash block.envelope in
      let size = (length block.envelope.payload + 1) * 64 % usize_mod in
      cache_put
        (record s {
          meta = if contains_key h s.meta then s.meta else insert h (meta_of block h) s.meta;
        })
        h block size

  -- `cache_get`
  unfoldable pub cache_get : DataBlockDb Tx → ℕ → Option (DataBlock Tx)
  cache_get s h =
      if nat_beq h s.genesis_hash
      then some s.genesis
      else elim (lookup h s.cache) [ none ↦ none | some (b, sz) ↦ some b ]

  -- `get`; `read` is what the disk holds.
  unfoldable pub get : (ℕ → Option (DataBlock Tx)) → DataBlockDb Tx → ℕ → Option (DataBlock Tx)
  get read s h =
      if nat_beq h s.genesis_hash
      then some s.genesis
      else if contains_key h s.meta
      then elim (lookup h s.cache) [ none ↦ read h | some (b, sz) ↦ some b ]
      else none

  -- `contains`, `epoch_of`, `cached_blocks`
  unfoldable pub contains : DataBlockDb Tx → ℕ → Bool
  contains s h = contains_key h s.meta

  unfoldable pub epoch_of : DataBlockDb Tx → ℕ → Option ℕ
  epoch_of s h = elim (lookup h s.meta) [ none ↦ none | some m ↦ some m.epoch ]

  unfoldable pub cached_blocks : DataBlockDb Tx → ℕ
  cached_blocks s = length s.cache
