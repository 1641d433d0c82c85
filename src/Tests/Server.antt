-- ===== src/Tests/Server.antt =====
-- consensus/src/server/leto: the theorems on the server at a committee of four.
use leto_rs.Prelude.{
  ℕ, ◌+◌, ◌≡◌, ◌↔◌, ◌⊎◌, refl, Bool, true, false, ◌&&◌, none, some, List, [], ◌∷◌, nat_eq, nat_beq,
  if◌then◌else◌, Map, lookup, insert, length, arith, wrapping_sub, set_insert, set_contains,
}
use leto_rs.Prelude.Results.{ok, panicked, Leaves, Ends}
use leto_rs.Types.{
  Signature, Certificate, Proposal, genesis, verify_certificate, empty_certificate, unique_len,
  verify_sigs, verify_without_id_check,
}
use leto_rs.Types.Verification.{IsSignedIn}
use leto_rs.ChainDb.{found, ser_and_hash, read, notify_read, write}
use leto_rs.ChainDb.Contents.{write_all, read-write_all}
use leto_rs.ChainDb.Growth.{IsAddressed}
use leto_rs.Leto.LeaderContext.{replacement_limit}
use leto_rs.Leto.ChainState
use leto_rs.Leto.ChainState.{Database, get_qc}
use leto_rs.Leto.RoundContext
use leto_rs.Leto.Engine.{Platform, Server, highest_round, current_round, qc_len}
use leto_rs.Leto.Engine.Blaming.{add_all, handle_blame, handle_blame_qc}
use leto_rs.Leto.Engine.Blaming.Forming.{AreBlames, handle_blame_lem}
use leto_rs.Leto.Engine.Proposing.{is_round_qc, is_proposal_valid, collect_qcs, new_proposal}
use leto_rs.Leto.Engine.Proposing.Certificates.{IsVerdict, Walks, Breaks}
use leto_rs.Leto.Engine.Proposing.Validity.{is_proposal_valid_lem, own_proposal_invalid}
use leto_rs.Leto.Engine.Loop.{timer_tick, started, step, spawn, run}
use leto_rs.Leto.Engine.Invariant.{IsRunning}
use leto_rs.Leto.Engine.Invariant.Handling.{RunsOn}
use leto_rs.Leto.Engine.Invariant.Turns.{Stops, step_lem}
use leto_rs.Leto.Engine.Invariant.Spawning.{first_round, started-IsRunning, served}
use leto_rs.Tests.Leaders.{first, ids, ids-IsDistinct, limit, made, begun, begun-IsFair}
use leto_rs.Tests.Encoding.{
  Disk, disk, fold_hash, hash_injective, number, list, bincode, database, no_collisions,
}

-- A signature is the key before the hash.
abbrev toy_verify : ℕ → ℕ → List ℕ → Bool
toy_verify pk hash (k ∷ h ∷ []) = nat_beq k pk && nat_beq h hash
toy_verify pk hash _ = false

-- Server 1, whose secret is its key.
abbrev toy : Platform ℕ ℕ ℕ ℕ Disk ℕ
toy = record {
  base = database;
  hash_round = λ r. r;
  hash_proposal = λ p. p.round;
  sign = λ h. some (1 ∷ h ∷ []);
  pk_verify = toy_verify;
  choice = first;
  reset = λ t. 0;
  gc_depth = 16;
  handler = λ net peer msg. some peer;
}

abbrev keys : Map ℕ ℕ
keys = (0, 0) ∷ (1, 1) ∷ (2, 2) ∷ (3, 3) ∷ []

abbrev start : Server toy
start = started toy 1 keys ids 1 0 0 [] begun

empty-IsAddressed : IsAddressed database.storage database.do_hash []
unfolding database disk lookup
empty-IsAddressed k v h = cc

start-IsRunning : IsRunning toy ids (replacement_limit 4 1) start × (current_round start ≡ 1)
start-IsRunning =
    started-IsRunning toy 1 keys ids (replacement_limit 4 1) 1 0 0 [] begun no_collisions
      empty-IsAddressed begun-IsFair (first_round first 0 ids 1 begun made.1) (omega arith)

-- The first proposal on the genesis element.
abbrev first_proposal : Proposal
first_proposal = record {
  block = record { batch_hash = 9; prev_hash = start.chain_state.highest_chain_hash };
  qc = none;
  round = 1;
}

abbrev signed : Signature
signed = record { raw = 0 ∷ 1 ∷ []; id = 0 }

step_lem_example :
    Ends (RunsOn toy ids (replacement_limit 4 1) (current_round start)) (step toy start timer_tick)
    ⊎ ((step toy start timer_tick ≡ panicked) × Stops toy start)
step_lem_example =
    step_lem toy no_collisions ids (replacement_limit 4 1) (omega (arith, limit)) start timer_tick
      (omega (arith, start-IsRunning.1)) tt start-IsRunning.0

served_example :
    (s : Server toy) × (spawn toy 1 keys ids 1 0 0 0 [] ≡ some s)
    × Leaves (IsRunning toy ids (replacement_limit 4 1)) (run toy s (timer_tick ∷ []))
served_example =
    served toy 1 keys (1 ∷ 2 ∷ 3 ∷ []) 1 0 0 0 [] no_collisions empty-IsAddressed ids-IsDistinct
      (omega (arith, limit)) (omega (arith, limit)) (omega arith) (timer_tick ∷ []) (omega arith)
      (λ s e. (tt, λ t f. tt))

read-write_all_example :
    let bytes = bincode (list number) in
    let s = write_all disk fold_hash (write disk fold_hash bytes [] (5 ∷ 6 ∷ [])) ((1 ∷ []) ∷ []) in
    (read disk fold_hash bytes s (ser_and_hash disk fold_hash bytes (5 ∷ 6 ∷ []))
      ≡ found (5 ∷ 6 ∷ []))
    × (notify_read disk fold_hash bytes s (ser_and_hash disk fold_hash bytes (5 ∷ 6 ∷ []))
        ≡ some (found (5 ∷ 6 ∷ [])))
read-write_all_example =
    read-write_all disk fold_hash (bincode (list number)) [] (5 ∷ 6 ∷ []) ((1 ∷ []) ∷ [])
      (hash_injective (1 ∷ []) _, tt)

-- Server 2 blames round 1.
abbrev blame_of_2 : Signature
blame_of_2 = record { raw = 2 ∷ 1 ∷ []; id = 2 }

blame_of_2_signed : IsSignedIn toy_verify keys 1 blame_of_2
unfolding lookup
blame_of_2_signed = (2, refl, refl)

handle_blame_lem_example :
    let m = insert 2 blame_of_2 start.round_context.blame_map in
    let qc = add_all m empty_certificate in
    AreBlames toy keys 1 m
    × (verify_certificate toy_verify qc 1 keys ≡ true)
    × (unique_len qc ≡ length m)
    × (handle_blame toy start 1 blame_of_2 ≡ (
        if nat_beq (length m) (qc_len start)
        then handle_blame_qc toy
            (record start {
              round_context = record start.round_context { blame_map = []; got_qc = true };
            })
            1
            qc
        else ok (record start { round_context = record start.round_context { blame_map = m } })))
unfolding started ChainState.new RoundContext.new genesis
handle_blame_lem_example =
    handle_blame_lem toy start 1 blame_of_2 refl refl (record { distinct = tt; signed = tt })
      blame_of_2_signed

-- A proposal for round 3 on the genesis element, without certificates for the rounds between.
abbrev far_proposal : Proposal
far_proposal = record first_proposal { round = 3 }

is_proposal_valid_lem_example :
    let parent = start.chain_state.highest_chain_element in
    IsVerdict toy start far_proposal (is_proposal_valid toy start far_proposal parent)
    × ((is_proposal_valid toy start far_proposal parent ≡ ok true) ↔ (
        (k : ℕ) × (3 ≡ parent.proposal.round + 1 + k)
        × Walks toy start far_proposal 0 (parent.proposal.round + 1) k))
    × ((is_proposal_valid toy start far_proposal parent ≡ panicked)
        ↔ ((k : ℕ) × Breaks toy start far_proposal 0 (parent.proposal.round + 1) k))
unfolding started ChainState.new RoundContext.new genesis
is_proposal_valid_lem_example =
    is_proposal_valid_lem toy start far_proposal start.chain_state.highest_chain_element
      (omega arith)

-- Three servers blamed round 1 and round 2.
abbrev qc_of : ℕ → Certificate
qc_of r = record {
  raw_sigs =
      record { raw = 1 ∷ r ∷ []; id = 1 }
      ∷ record { raw = 2 ∷ r ∷ []; id = 2 }
      ∷ record { raw = 3 ∷ r ∷ []; id = 3 }
      ∷ [];
}

abbrev blamed_twice : Server toy
blamed_twice = record start {
  round_context = record start.round_context { current_round = 3 };
  chain_state = record start.chain_state { qc_map = (1, qc_of 1) ∷ (2, qc_of 2) ∷ [] };
}

two_collected :
    collect_qcs toy blamed_twice (highest_round blamed_twice) (wrapping_sub 3 1)
    ≡ ok (qc_of 2 ∷ qc_of 1 ∷ [])
unfolding collect_qcs get_qc lookup started ChainState.new genesis wrapping_sub
two_collected = refl

second_for_first : is_round_qc toy blamed_twice (highest_round blamed_twice + 1) (qc_of 2) ≡ false
unfolding is_round_qc unique_len set_insert set_contains verify_certificate verify_sigs
    verify_without_id_check lookup started ChainState.new genesis replacement_limit
second_for_first = refl

own_proposal_invalid_example :
    is_proposal_valid toy blamed_twice
      (new_proposal toy blamed_twice 9 (qc_of 2 ∷ qc_of 1 ∷ []))
      blamed_twice.chain_state.highest_chain_element
    ≡ ok false
unfolding started ChainState.new genesis get_qc lookup
own_proposal_invalid_example =
    own_proposal_invalid toy blamed_twice 9 1 (qc_of 2) (qc_of 2 ∷ qc_of 1 ∷ []) refl (omega arith)
      (omega arith) two_collected refl second_for_first
