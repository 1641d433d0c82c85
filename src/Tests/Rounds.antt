-- ===== src/Tests/Rounds.antt =====
-- consensus/src/server/leto/round_context.rs: the theorems on the round context at small runs.
use leto_rs.Prelude.{
  ℕ, ◌≡◌, refl, false, Option, none, some, List, [], ◌∷◌, arith, nat_eq, nat_beq_iff, lookup,
}
use leto_rs.Types.{ProtocolMsg, propose, blame}
use leto_rs.Leto.RoundContext.{RoundContext, RoundTimer, msg_round, new}
use leto_rs.Leto.RoundContext.Delivery.{IsSynced, new-IsSynced}
use leto_rs.Leto.RoundContext.Histories.{
  Agenda, Move, arrive, advance, take, move_all, spec_move, spec_all, Refines, BothRefine,
  history-Refines,
}

abbrev start : RoundContext ℕ ℕ
start = record {
  current_round = 1;
  msg_buf = [];
  proposals_ready = [];
  blame_ready = [];
  blame_qc_ready = [];
  cancel_handlers = [];
  blame_map = [];
  got_qc = false;
  num_nodes = 4;
}

start-IsSynced : IsSynced start
unfolding new
start-IsSynced = new-IsSynced 4

abbrev timer : RoundTimer ℕ
timer = record { timer = 7; timer_enabled = false }

abbrev proposed : ℕ → ProtocolMsg ℕ
proposed sender =
    propose (record { block = record { batch_hash = 0; prev_hash = 0 }; qc = none; round = 3 })
      (record { raw = []; id = sender }) [] sender

-- In round 1 a blame and two proposals for round 3 arrive, and a blame for round 1, which is polled;
-- then round 3 begins, and one message is polled.
abbrev history : List (Move ℕ)
history =
    arrive (blame 3 (record { raw = []; id = 2 }))
    ∷ arrive (proposed 0)
    ∷ arrive (proposed 1)
    ∷ arrive (blame 1 (record { raw = []; id = 2 }))
    ∷ take
    ∷ advance
    ∷ arrive (blame 1 (record { raw = []; id = 3 }))
    ∷ advance
    ∷ take
    ∷ []

start-Refines : Refines start (1, λ q. [])
unfolding lookup
start-Refines = record {
  synced = start-IsSynced;
  round = refl;
  messages = λ q. ground (arith, nat_beq_iff 1 q);
}

messages_for : ℕ → Option (Agenda ℕ) → List (ProtocolMsg ℕ)
messages_for r none = []
messages_for r (some a) = a.1 r

-- The second proposal and the blame are left.
left_over :
    messages_for 3 (spec_all history (1, λ q. []))
    ≡ proposed 1 ∷ blame 3 (record { raw = []; id = 2 }) ∷ []
unfolding messages_for spec_all spec_move msg_round
left_over = refl

history-Refines_example :
    BothRefine (move_all (λ t. 0) 16 history (start, timer)) (spec_all history (1, λ q. []))
history-Refines_example =
    history-Refines (λ t. 0) 16 history start timer (1, λ q. []) (omega arith) start-Refines
