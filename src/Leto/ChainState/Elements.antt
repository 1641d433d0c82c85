-- ===== src/Leto/ChainState/Elements.antt =====
-- consensus/src/server/leto/chain_state: the highest element is on the disk under its hash.
use leto_rs.Prelude.{ℕ, ◌≡◌, refl, List}
use leto_rs.Types.{Signature, Proposal, genesis}
use leto_rs.ChainDb.{found, ser_and_hash, write_serialized}
use leto_rs.ChainDb.Contents.{Holds, read-Holds, write-Holds}
use leto_rs.Leto.ChainState.{
  ChainState, Database, hash_element, new, get_element, update_highest_chain, write_element,
  genesis_setup,
}

module _ {Tx S : Type 0} (base : Database Tx S) where
  open base use {storage, do_hash, elements, batches}

  -- The hash of the highest element is its own, and its bytes are on the disk.
  pub record IsStored (c : ChainState Tx S) : Type 0 where
    pub hashed : c.highest_chain_hash ≡ hash_element base c.highest_chain_element
    pub stored : Holds storage do_hash c.db (elements.serialize c.highest_chain_element)

  pub update-IsStored :
      (c : ChainState Tx S) (prop : Proposal) (auth : Signature) (batch : List Tx)
      → IsStored (update_highest_chain base c prop auth batch)
  unfolding update_highest_chain hash_element ser_and_hash write_serialized
  update-IsStored c prop auth batch = record { hashed = refl; stored = storage.read-write c.db _ _ }

  pub genesis_setup-IsStored :
      (empty_hash : ℕ) (store : S) → IsStored (genesis_setup base (new base empty_hash store))
  unfolding new genesis_setup write_element
  genesis_setup-IsStored empty_hash store = record {
    hashed = refl;
    stored = write-Holds storage do_hash elements store (genesis empty_hash 0);
  }

  -- Where the highest element is on the disk, `get_element` of the highest hash returns it.
  pub get_highest :
      (c : ChainState Tx S)
      → IsStored c
      → get_element base c c.highest_chain_hash ≡ found c.highest_chain_element
  unfolding get_element hash_element
  get_highest c v =
      rw (v.hashed) (read-Holds storage do_hash elements c.db c.highest_chain_element v.stored)
