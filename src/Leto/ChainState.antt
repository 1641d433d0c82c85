-- ===== src/Leto/ChainState.antt =====
-- consensus/src/server/leto/chain_state: the highest chain, the certificates of blamed rounds, and
-- the storage.
pub mod Elements
use leto_rs.Prelude.{ℕ, Option, List, [], nat_eq, Map, lookup, insert}
use leto_rs.Types.{Signature, Certificate, Proposal, Element, genesis}
use leto_rs.ChainDb.{Storage, Bincode, Found, read, ser_and_hash, write, write_serialized}

pub record ChainState (Tx S : Type 0) : Type 0 where
  pub db : S
  pub highest_chain_hash : ℕ
  pub highest_chain_element : Element Tx
  pub qc_map : Map ℕ Certificate

-- The libraries: the storage, the hash, and `bincode` at the two types that are stored.
pub record Database (Tx S : Type 0) : Type 0 where
  pub storage : Storage S
  pub do_hash : List ℕ → ℕ
  pub elements : Bincode (Element Tx)
  pub batches : Bincode (List Tx)

unfoldable pub add_qc : {Tx S : Type 0} → ChainState Tx S → ℕ → Certificate → ChainState Tx S
add_qc c blame_round qc = record c { qc_map = insert blame_round qc c.qc_map }

unfoldable pub get_qc : {Tx S : Type 0} → ChainState Tx S → ℕ → Option Certificate
get_qc c round = lookup round c.qc_map

module _ {Tx S : Type 0} (base : Database Tx S) where
  open base use {storage, do_hash, elements, batches}

  unfoldable pub hash_element : Element Tx → ℕ
  hash_element element = ser_and_hash storage do_hash elements element

  -- `empty_hash` is `Hash::EMPTY_HASH`; the genesis element is `START_ID`'s.
  unfoldable pub new : ℕ → S → ChainState Tx S
  unfolding hash_element genesis
  new empty_hash store = record {
    db = store;
    highest_chain_hash = hash_element (genesis empty_hash 0);
    highest_chain_element = genesis empty_hash 0;
    qc_map = [];
  }

  unfoldable pub get_batch : ChainState Tx S → ℕ → Found (List Tx)
  get_batch c batch_hash = read storage do_hash batches c.db batch_hash

  unfoldable pub get_element : ChainState Tx S → ℕ → Found (Element Tx)
  get_element c element_hash = read storage do_hash elements c.db element_hash

  unfoldable pub update_highest_chain :
      ChainState Tx S → Proposal → Signature → List Tx → ChainState Tx S
  unfolding write_serialized
  update_highest_chain c prop auth batch =
      let chain_element : Element Tx = record { proposal = prop; auth = auth; batch = batch } in
      let serialized = elements.serialize chain_element in
      let element_hash = do_hash serialized in
      record c {
        db = write_serialized storage do_hash c.db element_hash serialized;
        highest_chain_hash = element_hash;
        highest_chain_element = chain_element;
      }

  unfoldable pub write_element : ChainState Tx S → Element Tx → ChainState Tx S
  write_element c chain_element = record c {
    db = write storage do_hash elements c.db chain_element;
  }

  unfoldable pub write_batch_ref : ChainState Tx S → List Tx → ChainState Tx S
  write_batch_ref c batch = record c {
    db =
        write_serialized storage do_hash c.db (do_hash (batches.serialize batch))
          (batches.serialize batch);
  }

  -- `genesis_setup`, whose `notify_read` finds what is just written.
  unfoldable pub genesis_setup : ChainState Tx S → ChainState Tx S
  unfolding write_element
  genesis_setup c = write_element c c.highest_chain_element
