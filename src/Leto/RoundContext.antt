-- ===== src/Leto/RoundContext.antt =====
-- consensus/src/server/leto/round_context.rs: the messages of the current round and of later ones.
pub mod Order
pub mod Delivery
pub mod Rounds
pub mod Frames
pub mod Contents
pub mod Histories
use leto_rs.Prelude.{
  ◌>>=◌, ℕ, ◌-◌, Bool, true, false, not, Option, none, some, List, [], ◌∷◌, ◌++◌, nat_eq, nat_beq,
  ltb, leb, if◌then◌else◌, Map, lookup, insert, remove, retain, is_some, unwrap_or, wrapping_add,
  map,
}
use leto_rs.Types.{
  Signature, Certificate, Proposal, ProtocolMsg, propose, relay, blame, blame_qc, batch_request,
  batch_response, element_request, element_response,
}

abbrev pub PropMsg : Type 0 → Type 0
PropMsg Tx = Proposal × Signature × List Tx × ℕ

abbrev pub BlameMsg : Type 0
BlameMsg = ℕ × Signature

abbrev pub BlameQcMsg : Type 0
BlameQcMsg = ℕ × Certificate

-- `H` is the type of cancel handlers, of the sender's library.
pub record RoundContext (Tx H : Type 0) : Type 0 where
  pub current_round : ℕ
  pub msg_buf : Map ℕ (List (ProtocolMsg Tx))
  pub proposals_ready : Map ℕ (List (PropMsg Tx))
  pub blame_ready : Map ℕ (List BlameMsg)
  pub blame_qc_ready : Map ℕ (List BlameQcMsg)
  pub cancel_handlers : Map ℕ (List H)
  pub blame_map : Map ℕ Signature
  pub got_qc : Bool
  pub num_nodes : ℕ

-- The timer of the round and whether it is enabled, which the server owns.
pub record RoundTimer (T : Type 0) : Type 0 where
  pub timer : T
  pub timer_enabled : Bool

-- The list under the key, empty where there is none.
abbrev pub queue_at : {A : Type 0} → ℕ → Map ℕ (List A) → List A
queue_at r m = unwrap_or (lookup r m) []

-- `entry(r).or_default().push_back(a)`
unfoldable pub push : {A : Type 0} → ℕ → A → Map ℕ (List A) → Map ℕ (List A)
push r a m = insert r (queue_at r m ++ a ∷ []) m

unfoldable pub push_all : {A : Type 0} → ℕ → List A → Map ℕ (List A) → Map ℕ (List A)
push_all r [] m = m
push_all r (a ∷ as') m = push_all r as' (push r a m)

unfoldable pub disable_blame_timers : {T : Type 0} → RoundTimer T → RoundTimer T
disable_blame_timers t = record t { timer_enabled = false }

module _ {Tx : Type 0} where
  abbrev pub as_propose : PropMsg Tx → ProtocolMsg Tx
  as_propose (proposal, auth, batch, sender) = propose proposal auth batch sender

  abbrev pub as_blame : BlameMsg → ProtocolMsg Tx
  as_blame (round, auth) = blame round auth

  abbrev pub as_blame_qc : BlameQcMsg → ProtocolMsg Tx
  as_blame_qc (round, qc) = blame_qc round qc

  -- The round of a message; `none` where the source has `unreachable!()`.
  unfoldable pub msg_round : ProtocolMsg Tx → Option ℕ
  msg_round (propose proposal auth batch sender) = some proposal.round
  msg_round (blame round auth) = some round
  msg_round (blame_qc round qc) = some round
  msg_round _ = none

module _ {Tx H : Type 0} where
  unfoldable pub new : ℕ → RoundContext Tx H
  new num_nodes = record {
    current_round = 1;
    msg_buf = [];
    proposals_ready = [];
    blame_ready = [];
    blame_qc_ready = [];
    cancel_handlers = [];
    blame_map = [];
    got_qc = false;
    num_nodes = num_nodes;
  }

  unfoldable pub add_handler : RoundContext Tx H → H → RoundContext Tx H
  add_handler c handler = record c {
    cancel_handlers = push c.current_round handler c.cancel_handlers;
  }

  unfoldable pub add_handlers : RoundContext Tx H → List H → RoundContext Tx H
  add_handlers c handlers = record c {
    cancel_handlers =
        insert c.current_round (queue_at c.current_round c.cancel_handlers ++ handlers)
          c.cancel_handlers;
  }

  -- The four blocks of `advance_round`: collection, resets, and the three queues.
  unfoldable pub collect : ℕ → RoundContext Tx H → RoundContext Tx H
  collect gc_depth c = record c {
    cancel_handlers = retain (leb (c.current_round - gc_depth)) c.cancel_handlers;
    msg_buf = retain (leb c.current_round) c.msg_buf;
    blame_map = [];
    got_qc = false;
  }

  unfoldable pub take_proposals : RoundContext Tx H → RoundContext Tx H
  unfolding push_all
  take_proposals c = record c {
    proposals_ready = remove c.current_round c.proposals_ready;
    msg_buf =
        push_all c.current_round (map as_propose (queue_at c.current_round c.proposals_ready))
          c.msg_buf;
  }

  unfoldable pub take_blame_qcs : RoundContext Tx H → RoundContext Tx H
  unfolding push_all
  take_blame_qcs c = record c {
    blame_qc_ready = remove c.current_round c.blame_qc_ready;
    msg_buf =
        push_all c.current_round (map as_blame_qc (queue_at c.current_round c.blame_qc_ready))
          c.msg_buf;
  }

  unfoldable pub take_blames : RoundContext Tx H → RoundContext Tx H
  unfolding push_all
  take_blames c = record c {
    blame_ready = remove c.current_round c.blame_ready;
    msg_buf =
        push_all c.current_round (map as_blame (queue_at c.current_round c.blame_ready)) c.msg_buf;
  }

  -- `advance_round`; `gc_depth` is `gc_depth_rounds()`, and `reset` the timer's.
  unfoldable pub advance_round :
      {T : Type 0}
      → (T → T)
      → ℕ
      → RoundContext Tx H × RoundTimer T
      → RoundContext Tx H × RoundTimer T
  unfolding collect take_proposals take_blame_qcs take_blames
  advance_round reset gc_depth (c, t) = (
    take_blames (
        take_blame_qcs (
          take_proposals
            (collect gc_depth (record c { current_round = wrapping_add c.current_round 1 })))),
    record { timer = reset t.timer; timer_enabled = true },
  )

  -- A message of a later round waits in the queue of its kind.
  unfoldable pub queue_msg : ProtocolMsg Tx → RoundContext Tx H → Option (RoundContext Tx H)
  queue_msg (propose proposal auth batch sender) c = some (record c {
    proposals_ready = push proposal.round (proposal, auth, batch, sender) c.proposals_ready;
  })
  queue_msg (blame round auth) c =
      some (record c { blame_ready = push round (round, auth) c.blame_ready })
  queue_msg (blame_qc round qc) c =
      some (record c { blame_qc_ready = push round (round, qc) c.blame_qc_ready })
  queue_msg _ c = none

  -- `sync`; `none` is the panic of `unreachable!()`.
  unfoldable pub sync : ProtocolMsg Tx → RoundContext Tx H → Option (RoundContext Tx H)
  unfolding queue_msg
  sync msg c = do
    round ← msg_round msg
    if ltb round c.current_round
        then some c
        else if ltb c.current_round round
        then queue_msg msg c
        else some (record c { msg_buf = push c.current_round msg c.msg_buf })

  unfoldable pub is_ready : RoundContext Tx H → Bool
  is_ready c = elim (lookup c.current_round c.msg_buf) [
    | none ↦ false
    | some [] ↦ false
    | some (msg ∷ msgs) ↦ true
  ]

  -- `poll_next`; `none` is the panic of its two `expect`s.
  unfoldable pub poll_next : RoundContext Tx H → Option (ProtocolMsg Tx × RoundContext Tx H)
  poll_next c = elim (lookup c.current_round c.msg_buf) [
    | none ↦ none
    | some [] ↦ none
    | some (msg ∷ msgs) ↦ some (msg, record c { msg_buf = insert c.current_round msgs c.msg_buf })
  ]
