-- ===== src/Zeus/Rounds.antt =====
-- consensus/src/server/zeus/core.rs: `ZeusRoundState`, the messages of the current round of the
-- signature chain and of later ones.

pub mod Delivery
use leto_rs.Prelude.{
  ℕ, ◌-◌, Bool, true, false, Option, none, some, List, [], ◌∷◌, ◌++◌, nat_eq, ltb, leb,
  if◌then◌else◌, Map, insert, remove, retain, wrapping_add,
}
use leto_rs.Types.{Signature}
use leto_rs.Leto.RoundContext.{RoundTimer, queue_at, push}

-- `M` is the type of messages and `H` that of cancel handlers.
pub record ZeusRoundState (M H : Type 0) : Type 0 where
  pub current_round : ℕ
  pub msg_buf : List M
  pub future_msgs : Map ℕ (List M)
  pub blame_map : Map ℕ Signature
  pub got_qc : Bool
  pub cancel_handlers : Map ℕ (List H)
  pub num_nodes : ℕ

unfoldable pub disable_timer : {T : Type 0} → RoundTimer T → RoundTimer T
disable_timer t = record t { timer_enabled = false }

module _ {M H : Type 0} where
  unfoldable pub new : ℕ → ZeusRoundState M H
  new num_nodes = record {
    current_round = 1;
    msg_buf = [];
    future_msgs = [];
    blame_map = [];
    got_qc = false;
    cancel_handlers = [];
    num_nodes = num_nodes;
  }

  unfoldable pub is_ready : ZeusRoundState M H → Bool
  is_ready c = elim c.msg_buf [ [] ↦ false | msg ∷ msgs ↦ true ]

  -- `pop_msg`, with the state that it leaves.
  unfoldable pub pop_msg : ZeusRoundState M H → Option (M × ZeusRoundState M H)
  pop_msg c = elim c.msg_buf [ [] ↦ none | msg ∷ msgs ↦ some (msg, record c { msg_buf = msgs }) ]

  unfoldable pub enqueue : ZeusRoundState M H → M → ℕ → ZeusRoundState M H
  enqueue c msg msg_round =
      if ltb msg_round c.current_round
      then c
      else if ltb c.current_round msg_round
      then record c { future_msgs = push msg_round msg c.future_msgs }
      else record c { msg_buf = c.msg_buf ++ msg ∷ [] }

  -- What `advance_round` does to the state; `gc_depth` is `gc_depth_rounds()`.
  unfoldable pub next_round : ℕ → ZeusRoundState M H → ZeusRoundState M H
  next_round gc_depth c =
      let round = wrapping_add c.current_round 1 in
      record c {
        current_round = round;
        blame_map = [];
        got_qc = false;
        cancel_handlers = retain (leb (round - gc_depth)) c.cancel_handlers;
        msg_buf = c.msg_buf ++ queue_at round c.future_msgs;
        future_msgs = retain (leb round) (remove round c.future_msgs);
      }

  -- `advance_round`; `reset` is the timer's.
  unfoldable pub advance_round :
      {T : Type 0}
      → (T → T)
      → ℕ
      → ZeusRoundState M H × RoundTimer T
      → ZeusRoundState M H × RoundTimer T
  unfolding next_round
  advance_round reset gc_depth (c, t) =
      (next_round gc_depth c, record { timer = reset t.timer; timer_enabled = true })

  unfoldable pub add_handler : ZeusRoundState M H → H → ZeusRoundState M H
  add_handler c handler = record c {
    cancel_handlers = push c.current_round handler c.cancel_handlers;
  }

  unfoldable pub add_handlers : ZeusRoundState M H → List H → ZeusRoundState M H
  add_handlers c handlers = record c {
    cancel_handlers =
        insert c.current_round (queue_at c.current_round c.cancel_handlers ++ handlers)
          c.cancel_handlers;
  }
