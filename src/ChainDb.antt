-- ===== src/ChainDb.antt =====
-- consensus/src/server/chain_db.rs: values in the storage under the hashes of their bytes.
pub mod Contents
pub mod Growth
use leto_rs.Prelude.{ℕ, ◌≡◌, ◌≢◌, Option, none, some, List}

-- The storage library: bytes under keys. A key that was written reads as its last bytes.
pub record Storage (S : Type 0) : Type 0 where
  pub store_read : S → ℕ → Option (List ℕ)
  pub store_write : S → ℕ → List ℕ → S
  pub read-write : (s : S) (k : ℕ) (v : List ℕ) → store_read (store_write s k v) k ≡ some v
  pub read-write_other :
      (s : S) (j k : ℕ) (v : List ℕ) → j ≢ k → store_read (store_write s j v) k ≡ store_read s k

-- `bincode` at one type. What it writes it reads back.
pub record Bincode (A : Type 0) : Type 0 where
  pub serialize : A → List ℕ
  pub deserialize : List ℕ → Option A
  pub deserialize-serialize : (a : A) → deserialize (serialize a) ≡ some a

-- What `read` returns: `Ok(Some(v))`, `Ok(None)`, or the error of `deserialize`.
pub data Found (A : Type 0) : Type 0 where
  found : A → Found A
  absent : Found A
  garbled : Found A

decoded : {A : Type 0} → Option A → Found A
decoded none = garbled
decoded (some a) = found a

module _ {S : Type 0} (storage : Storage S) (do_hash : List ℕ → ℕ) where
  open storage use {store_read, store_write}

  module _ {A : Type 0} (bincode : Bincode A) where
    open bincode use {serialize, deserialize}

    read_bytes : Option (List ℕ) → Found A
    unfolding decoded
    read_bytes none = absent
    read_bytes (some serialized) = decoded (deserialize serialized)

    -- `ChainDB::read`, and `read_as`, whose type of keys is another one.
    unfoldable pub read : S → ℕ → Found A
    unfolding read_bytes decoded
    read s hash = read_bytes (store_read s hash)

    woken : Option (List ℕ) → Option (Found A)
    unfolding decoded
    woken none = none
    woken (some serialized) = some (decoded (deserialize serialized))

    -- `ChainDB::notify_read` when it wakes; it waits as long as this is `none`.
    unfoldable pub notify_read : S → ℕ → Option (Found A)
    unfolding woken
    notify_read s hash = woken (store_read s hash)

    -- `ser_and_hash`
    unfoldable pub ser_and_hash : A → ℕ
    ser_and_hash a = do_hash (serialize a)

    -- `ChainDB::write`
    unfoldable pub write : S → A → S
    unfolding ser_and_hash
    write s val = store_write s (ser_and_hash val) (serialize val)

  -- `ChainDB::write_serialized`
  unfoldable pub write_serialized : S → ℕ → List ℕ → S
  write_serialized s hash serialized = store_write s hash serialized
