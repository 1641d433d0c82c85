-- ===== src/Leto/Engine/Proposing.antt =====
-- consensus/src/server/leto/phases/proposal.rs: proposals, the certificates that they carry for the
-- blamed rounds, and what a leader proposes.
pub mod Certificates
pub mod Validity
use leto_rs.Prelude.{
  ℕ, zero, suc, ◌+◌, ◌≡◌, Bool, true, false, ◌&&◌, Option, none, some, List, [], ◌∷◌, ◌++◌, nat_eq,
  nat_beq, ltb, leb, if◌then◌else◌, lookup, wrapping_add, wrapping_sub, get_elem?,
}
use leto_rs.Prelude.Results.{
  Handled, ok, failed, panicked, out_of_fuel, ◌>>=◌, or_panic, or_fail, logged,
}
use leto_rs.Types.{
  Signature, Certificate, Block, Proposal, Element, ProtocolMsg, propose, verify_signature,
  verify_certificate, unique_len,
}
use leto_rs.Batcher.{proposed_batch}
use leto_rs.ChainDb.{Found, found, absent, garbled}
use leto_rs.Leto.ChainState.{update_highest_chain, get_qc, get_batch, get_element}
use leto_rs.Leto.Engine.{
  Leto, Platform, Server, highest_round, leader, current_round, qc_len, broadcast, relay_proposal,
  advance_round,
}

module _ {Tx H T R S PublicKey : Type 0} (platform : Platform Tx H T R S PublicKey) where
  open platform use {base, hash_round, hash_proposal, sign, pk_verify}

  -- `get_element(parent_hash).await?.unwrap()`
  unfoldable pub unwrap_element :
      Server platform → Found (Element Tx) → Handled (Server platform) (Element Tx)
  unwrap_element s (found parent) = ok parent
  unwrap_element s absent = panicked
  unwrap_element s garbled = failed s

  unfoldable pub parent_of : Server platform → Proposal → Handled (Server platform) (Element Tx)
  unfolding unwrap_element
  parent_of s proposal =
      let parent_hash = proposal.block.prev_hash in
      if nat_beq parent_hash s.chain_state.highest_chain_hash
      then ok s.chain_state.highest_chain_element
      else unwrap_element s (get_element base s.chain_state parent_hash)

  -- The certificate is a quorum's for the round.
  unfoldable pub is_round_qc : Server platform → ℕ → Certificate → Bool
  is_round_qc s round qc =
      nat_beq (unique_len qc) (qc_len s)
      && verify_certificate pk_verify qc (hash_round round) s.crypto_system

  -- One turn of the check, where the round is not reached; `qc_vec[idx]` panics out of range.
  unfoldable pub check_one :
      Server platform
      → Option (List Certificate)
      → ℕ
      → ℕ
      → Handled (Server platform) Bool
      → Handled (Server platform) Bool
  check_one s none start idx rest = ok false
  check_one s (some qc_vec) start idx rest = do
    qc ← or_panic (get_elem? qc_vec idx)
    if is_round_qc s start qc then (if ltb s.num_faults idx then ok false else rest) else ok false

  unfoldable pub check_qcs : ℕ → Server platform → Proposal → ℕ → ℕ → Handled (Server platform) Bool
  unfolding check_one
  check_qcs zero s proposal start idx = out_of_fuel
  check_qcs (suc fuel) s proposal start idx =
      let rest = check_qcs fuel s proposal (wrapping_add start 1) (suc idx) in
      if nat_beq proposal.round start then ok true else check_one s proposal.qc start idx rest

  -- `is_proposal_valid`
  unfoldable pub is_proposal_valid :
      Server platform → Proposal → Element Tx → Handled (Server platform) Bool
  is_proposal_valid s proposal parent =
      check_qcs (s.num_faults + 3) s proposal (wrapping_add parent.proposal.round 1) 0

  unfoldable pub check_leader :
      Server platform → Proposal → Signature → Handled (Server platform) (Unit {0})
  check_leader s proposal auth = if nat_beq (leader s) s.my_id then ok tt else do
    pk ← or_fail s (lookup (leader s) s.crypto_system)
    if verify_signature pk_verify auth (hash_proposal proposal) (leader s) pk
        then ok tt
        else failed s

  unfoldable pub on_correct_proposal :
      Server platform → Proposal → Signature → List Tx → Handled (Server platform) (Server platform)
  on_correct_proposal s proposal auth batch =
      let t = relay_proposal platform s proposal auth proposal.block.batch_hash in
      let c = update_highest_chain base t.chain_state proposal auth batch in
      advance_round platform (record t {
        chain_state = c;
        tx_consensus_to_batcher =
            t.tx_consensus_to_batcher
            ++ proposed_batch c.highest_chain_element.batch c.highest_chain_element.proposal.round
              ∷ [];
      })

  -- The verdict on the certificates is logged and has no other effect.
  unfoldable pub handle_proposal :
      Server platform → Proposal → Signature → List Tx → Handled (Server platform) (Server platform)
  unfolding parent_of is_proposal_valid check_leader on_correct_proposal
  handle_proposal s proposal auth batch = do
    parent ← parent_of s proposal
    is_valid ← is_proposal_valid s proposal parent
    signed ← check_leader s proposal auth
    on_correct_proposal s proposal auth batch

  -- The certificates of the rounds from `start` down to the one behind `end`.
  unfoldable pub collect_qcs :
      Server platform → ℕ → ℕ → Handled (Server platform) (List Certificate)
  collect_qcs s end zero = ok []
  collect_qcs s end (suc n) =
      let rest = collect_qcs s end n in
      if ltb end (suc n)
      then (or_panic (get_qc s.chain_state (suc n)) >>= λ qc. rest >>= λ qcs. ok (qc ∷ qcs))
      else ok []

  unfoldable pub expect_batch :
      Server platform → Found (List Tx) → Handled (Server platform) (List Tx)
  expect_batch s (found batch) = ok batch
  expect_batch s absent = failed s
  expect_batch s garbled = failed s

  unfoldable pub new_proposal : Server platform → ℕ → List Certificate → Proposal
  new_proposal s batch_hash qc_vec = record {
    block = record { batch_hash = batch_hash; prev_hash = s.chain_state.highest_chain_hash };
    round = current_round s;
    qc = elim qc_vec [ [] ↦ none | qc ∷ qcs ↦ some (qc ∷ qcs) ];
  }

  unfoldable pub handle_new_batch :
      Server platform → ℕ → Handled (Server platform) (Server platform)
  unfolding collect_qcs expect_batch new_proposal handle_proposal
  handle_new_batch s batch_hash = do
    qc_vec ← collect_qcs s (highest_round s) (wrapping_sub (current_round s) 1)
    let proposal = new_proposal s batch_hash qc_vec
    raw ← or_fail s (sign (hash_proposal proposal))
    let auth : Signature = record { raw = raw; id = s.my_id }
    batch ← expect_batch s (get_batch base s.chain_state batch_hash)
    let t = broadcast platform s (propose proposal auth batch s.my_id)
    logged (handle_proposal t proposal auth batch)
