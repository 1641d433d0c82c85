-- ===== src/Leto/Synchronizer.antt =====
-- consensus/src/server/leto/synchronizer/core.rs: a message goes on once what it refers to is known.
pub mod Delivery
use leto_rs.Prelude.{ℕ, Option, none, some, List, [], ◌∷◌, ◌++◌}
use leto_rs.Prelude.Results.{Handled, ok, failed}
use leto_rs.Types.{
  Signature, Proposal, Element, Request, Response, ProtocolMsg, propose, relay, blame, blame_qc,
  batch_request, batch_response, element_request, element_response,
}
use leto_rs.ChainDb.{Found, found, absent, garbled, read, write}
use leto_rs.Leto.ChainState.{Database}

-- `SynchronizerMsg`, what the task of the helper is asked.
pub data SyncMsg (Tx : Type 0) : Type 0 where
  deliver_batch_only : ℕ → ℕ → Proposal → Signature → SyncMsg Tx
  deliver_parent_only : ℕ → ℕ → Proposal → Signature → List Tx → SyncMsg Tx
  deliver_parent_and_batch : ℕ → ℕ → Proposal → Signature → SyncMsg Tx
  advance_to : ℕ → SyncMsg Tx

-- helper.rs: `HelperRequest`
pub data HelperRequest : Type 0 where
  for_batch : ℕ → Request → HelperRequest
  for_element : ℕ → Request → HelperRequest

-- What stands in the channels, the last message last. The storage is that of the chain state.
pub record Synchronizer (Tx : Type 0) : Type 0 where
  pub inner_channel : List (SyncMsg Tx)
  pub outer : List (ProtocolMsg Tx)
  pub tx_helper : List HelperRequest

module _ {Tx : Type 0} where
  unfoldable pub to_inner : Synchronizer Tx → SyncMsg Tx → Synchronizer Tx
  to_inner s msg = record s { inner_channel = s.inner_channel ++ msg ∷ [] }

  unfoldable pub to_outer : Synchronizer Tx → ProtocolMsg Tx → Synchronizer Tx
  to_outer s msg = record s { outer = s.outer ++ msg ∷ [] }

  unfoldable pub to_helper : Synchronizer Tx → HelperRequest → Synchronizer Tx
  to_helper s request = record s { tx_helper = s.tx_helper ++ request ∷ [] }

  unfoldable pub advance_round : Synchronizer Tx → ℕ → Synchronizer Tx
  unfolding to_inner
  advance_round s new_round = to_inner s (advance_to new_round)

module _ {Tx S : Type 0} where
  -- The four cases of `sync_relay_msg`; an error of a read ends it.
  unfoldable pub relay_known :
      S × Synchronizer Tx
      → Proposal
      → Signature
      → ℕ
      → ℕ
      → Found (List Tx)
      → Found (Element Tx)
      → Handled (S × Synchronizer Tx) (S × Synchronizer Tx)
  unfolding to_inner to_outer
  relay_known (db, s) proposal auth batch_hash sender garbled parent_opt = failed (db, s)
  relay_known (db, s) proposal auth batch_hash sender absent garbled = failed (db, s)
  relay_known (db, s) proposal auth batch_hash sender (found batch) garbled = failed (db, s)
  relay_known (db, s) proposal auth batch_hash sender absent absent =
      ok (db, to_inner s (deliver_parent_and_batch batch_hash sender proposal auth))
  relay_known (db, s) proposal auth batch_hash sender (found batch) absent =
      ok (db, to_inner s (deliver_parent_only proposal.block.prev_hash sender proposal auth batch))
  relay_known (db, s) proposal auth batch_hash sender absent (found parent) =
      ok (db, to_inner s (deliver_batch_only batch_hash sender proposal auth))
  relay_known (db, s) proposal auth batch_hash sender (found batch) (found parent) =
      ok (db, to_outer s (propose proposal auth batch sender))

  unfoldable pub propose_known :
      S × Synchronizer Tx
      → Proposal
      → Signature
      → List Tx
      → ℕ
      → Found (Element Tx)
      → Handled (S × Synchronizer Tx) (S × Synchronizer Tx)
  unfolding to_inner to_outer
  propose_known (db, s) proposal auth batch sender garbled = failed (db, s)
  propose_known (db, s) proposal auth batch sender absent =
      ok (db, to_inner s (deliver_parent_only proposal.block.prev_hash sender proposal auth batch))
  propose_known (db, s) proposal auth batch sender (found parent) =
      ok (db, to_outer s (propose proposal auth batch sender))

  module _ (base : Database Tx S) where
    open base use {storage, do_hash, elements, batches}

    unfoldable pub sync_propose_msg :
        S × Synchronizer Tx
        → Proposal
        → Signature
        → List Tx
        → ℕ
        → Handled (S × Synchronizer Tx) (S × Synchronizer Tx)
    sync_propose_msg (db, s) proposal auth batch sender =
        let db' = write storage do_hash batches db batch in
        propose_known (db', s) proposal auth batch sender
          (read storage do_hash elements db' proposal.block.prev_hash)

    unfoldable pub sync_relay_msg :
        S × Synchronizer Tx
        → Proposal
        → Signature
        → ℕ
        → ℕ
        → Handled (S × Synchronizer Tx) (S × Synchronizer Tx)
    sync_relay_msg (db, s) proposal auth batch_hash sender =
        relay_known (db, s) proposal auth batch_hash sender
          (read storage do_hash batches db batch_hash)
          (read storage do_hash elements db proposal.block.prev_hash)

    unfoldable pub sync_msg :
        S × Synchronizer Tx → ProtocolMsg Tx → Handled (S × Synchronizer Tx) (S × Synchronizer Tx)
    unfolding to_outer to_helper sync_propose_msg sync_relay_msg
    sync_msg (db, s) (propose proposal auth batch sender) =
        sync_propose_msg (db, s) proposal auth batch sender
    sync_msg (db, s) (relay proposal auth batch_hash sender) =
        sync_relay_msg (db, s) proposal auth batch_hash sender
    sync_msg (db, s) (batch_request source request) =
        ok (db, to_helper s (for_batch source request))
    sync_msg (db, s) (batch_response response) =
        ok (write storage do_hash batches db response.response, s)
    sync_msg (db, s) (element_request source request) =
        ok (db, to_helper s (for_element source request))
    sync_msg (db, s) (element_response response) =
        ok (write storage do_hash elements db response.response, s)
    sync_msg (db, s) (blame round auth) = ok (db, to_outer s (blame round auth))
    sync_msg (db, s) (blame_qc round qc) = ok (db, to_outer s (blame_qc round qc))
