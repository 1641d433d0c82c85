-- ===== src/Txpool/Lifecycle/Orphans.antt =====
-- consensus/src/server/tx_pool.rs: `rollback` as transitions of each transaction.
use leto_rs.Prelude.{
  ℕ, ◌≡◌, refl, ◌∙◌, ap, Bool, true, false, ◌||◌, ◌&&◌, Option, none, some, List, [], ◌∷◌, arith,
  leb, nat_beq_iff, nat_eq, if◌then◌else◌, Option-cases, inl, inr, lookup, contains_key, pair_beq,
  pair_beq_iff, pair_eq, set_contains, lookup-remove,
}
use leto_rs.Txpool.OrderedMap.{TxKey, lookup-insert_ordered}
use leto_rs.Txpool.Invariant.{IsValid, IsValidBut}
use leto_rs.Txpool.Rollback.{rollback_key-IsValidBut, unindexed-IsValidBut, rollback_round-IsValid}
use leto_rs.Txpool.Lifecycle.{TxState, unknown, mineable, in_flight, state, on_rollback}
use leto_rs.Txpool.{
  Env, Txpool, InflightEntry, high, requeue, rollback_key, rollback_keys, rollback_round, rollback,
}

module _ {Tx T : Type 0} (env : Env Tx T) where
  abbrev back : TxState → TxState
  back (in_flight r) = mineable
  back s = s

  state-rollback_key :
      (p : Txpool Tx T) (k j : TxKey)
      → (contains_key j p.mineable && contains_key j p.inflight) ≡ false
      → state (rollback_key env p k) j ≡ (if pair_beq k j then back (state p j) else state p j)
  unfolding rollback_key
  state-rollback_key p k j d =
      ground
        (arith, pair_beq_iff k j, lookup-remove j k p.inflight, requeued (lookup k p.inflight) refl)
    where
      requeued :
          (o : Option (InflightEntry Tx))
          → lookup k p.inflight ≡ o
          → state (requeue env p k o) j ≡ (
              if leb k.1 (high p k.0)
              then state (requeue env p k o) j
              else if pair_beq k j
              then back (state p j)
              else state p j)
      requeued none e = unfold requeue in ground (arith, pair_beq_iff k j)
      requeued (some x) e =
          unfold requeue in
          ground (
            arith,
            pair_beq_iff k j,
            lookup-remove j k p.inflight,
            lookup-insert_ordered j k (x.tx, x.size) p.mineable,
          )

  back_twice : (s : TxState) → back (back s) ≡ back s
  back_twice unknown = refl
  back_twice (in_flight r) = refl
  back_twice s = refl

  state-rollback_keys :
      (ks : List TxKey) (p : Txpool Tx T) (j : TxKey)
      → IsValidBut env [] ks p
      → state (rollback_keys env p ks) j
        ≡ (if set_contains j ks then back (state p j) else state p j)
  unfolding rollback_keys set_contains
  state-rollback_keys [] p j v = refl
  state-rollback_keys (k ∷ ks) p j v =
      let q = rollback_key env p k in
      state-rollback_keys ks q j (rollback_key-IsValidBut env k ks p v)
      ∙ choose (pair_beq k j) (set_contains j ks) (state p j) (state q j)
          (state-rollback_key p k j (v.disjoint j))
    where
      choose :
          (a b : Bool) (s t : TxState)
          → t ≡ (if a then back s else s)
          → (if b then back t else t) ≡ (if a || b then back s else s)
      choose true true s t e = rw e (back_twice s)
      choose true false s t e = e
      choose false b s t e = rw e

  state-rollback_round :
      (p : Txpool Tx T) (r : ℕ) (j : TxKey)
      → IsValid env p
      → state (rollback_round env p r) j ≡ on_rollback (r ∷ []) (state p j)
  unfolding rollback_round set_contains
  state-rollback_round p r j v = elim (Option-cases (lookup r p.inflight_by_round)) [
    | inl e ↦ rw (e, rollback_round) (ground (arith, e, v.indexed j r, nat_beq_iff r r))
    | inr (ks, e) ↦
        rw (e, rollback_round)
          (state-rollback_keys ks _ j (unindexed-IsValidBut env p r ks e v)
            ∙ ground (arith, e, v.indexed j r))
  ]

  on_rollback-cons :
      (r : ℕ) (rs : List ℕ) (s : TxState)
      → on_rollback rs (on_rollback (r ∷ []) s) ≡ on_rollback (r ∷ rs) s
  unfolding set_contains
  on_rollback-cons r rs unknown = refl
  on_rollback-cons r rs (in_flight q) = ground arith
  on_rollback-cons r rs s = refl

  -- On a valid pool `rollback` makes the transactions in flight at one of the rounds mineable again,
  -- and changes the state of no other; one that is replayed stays so.
  pub state-rollback :
      (rounds : List ℕ) (p : Txpool Tx T) (k : TxKey)
      → IsValid env p
      → state (rollback env p rounds) k ≡ on_rollback rounds (state p k)
  unfolding rollback set_contains
  state-rollback [] p k v = ground arith
  state-rollback (r ∷ rounds) p k v =
      state-rollback rounds (rollback_round env p r) k (rollback_round-IsValid env p r v)
      ∙ ap (on_rollback rounds) (state-rollback_round p r k v)
      ∙ on_rollback-cons r rounds (state p k)
