-- ===== src/Txpool/Lifecycle.antt =====
-- consensus/src/server/tx_pool.rs: the state machine of one transaction, which the comment on
-- `Txpool` describes.
pub mod Admission
pub mod Proposing
pub mod Commitment
pub mod Orphans
use leto_rs.Prelude.{
  ℕ, Bool, true, false, Option, none, some, List, [], ◌∷◌, ltb, leb, nat_eq, pair_eq, nat_beq,
  pair_beq, if◌then◌else◌, lookup, contains_key, set_contains, ◌||◌,
}
use leto_rs.Txpool.OrderedMap.{TxKey}
use leto_rs.Txpool.{Env, Txpool, InflightEntry, high, tx_key}

pub data TxState : Type 0 where
  unknown mineable replayed : TxState
  in_flight : ℕ → TxState

-- Where a transaction stands of which no nonce of its client is committed.
abbrev pub slot : {Tx : Type 0} → Option (InflightEntry Tx) → Bool → TxState
slot (some e) waits = in_flight e.round
slot none true = mineable
slot none false = unknown

-- The state of the transaction under the key.
abbrev pub state : {Tx T : Type 0} → Txpool Tx T → TxKey → TxState
state p k =
    if leb k.1 (high p k.0)
    then replayed
    else slot (lookup k p.inflight) (contains_key k p.mineable)

-- A client's copy arrives.
abbrev pub on_add : TxState → TxState
on_add unknown = mineable
on_add s = s

-- A proposal of the round holds it.
abbrev pub on_admit : ℕ → TxState → TxState
on_admit r unknown = in_flight r
on_admit r mineable = in_flight r
on_admit r s = s

-- The chain switches away from the rounds.
abbrev pub on_rollback : List ℕ → TxState → TxState
on_rollback rounds (in_flight r) = if set_contains r rounds then mineable else in_flight r
on_rollback rounds s = s

module _ {Tx T : Type 0} (env : Env Tx T) where
  open env use {client_id, nonce}

  -- The batch holds a transaction of the key.
  abbrev pub has_key : TxKey → List Tx → Bool
  has_key k [] = false
  has_key k (tx ∷ txs) = pair_beq (tx_key env tx) k || has_key k txs

  -- The mark of a client after a batch is committed.
  abbrev pub mark_after : ℕ → ℕ → List Tx → ℕ
  mark_after c mark [] = mark
  mark_after c mark (tx ∷ txs) =
      mark_after c
        (if nat_beq (client_id tx) c
          then (if ltb mark (nonce tx) then nonce tx else mark)
          else mark)
        txs
