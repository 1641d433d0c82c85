-- ===== src/Txpool/Lifecycle/Proposing.antt =====
-- consensus/src/server/tx_pool.rs: `make_batch` as transitions of each transaction.
use leto_rs.Prelude.{
  ℕ, ◌≡◌, refl, ◌∙◌, Bool, ◌||◌, some, [], ◌∷◌, arith, ltb, nat_eq, if◌then◌else◌, Bool-cases, inl,
  inr, lookup, pair_beq, pair_beq_iff, pair_eq, Map, set_contains, lookup-insert, wrapping_add,
}
use leto_rs.Txpool.OrderedMap.{TxKey}
use leto_rs.Txpool.Invariant.{IsValid, open_round-IsValidBut}
use leto_rs.Txpool.Filling.{promote-IsValid}
use leto_rs.Txpool.Lifecycle.{TxState, in_flight, state, has_key}
use leto_rs.Txpool.{Env, Txpool, tx_key, open_round, promote, fill, make_batch}

module _ {Tx T : Type 0} (env : Env Tx T) where
  state-promote :
      (p : Txpool Tx T) (round : ℕ) (key : TxKey) (tx : Tx) (size : ℕ) (rest : Map TxKey (Tx × ℕ))
      (k : TxKey)
      → p.mineable ≡ (key, (tx, size)) ∷ rest
      → IsValid env p
      → state (promote env p round key tx size rest) k
        ≡ (if pair_beq (tx_key env tx) k then in_flight round else state p k)
  unfolding promote set_contains
  state-promote p round key tx size rest k h v = ground (
    arith,
    first k,
    first key,
    pair_beq_iff key k,
    pair_beq_iff key key,
    v.fresh key,
    v.mineable_keyed key tx size,
    lookup-insert k key (record { tx = tx; size = size; round = round }) p.inflight,
  )
    where
      first :
          (k : TxKey)
          → lookup k p.mineable ≡ (if pair_beq key k then some (tx, size) else lookup k rest)
      first k = unfold lookup in rw h

  state-fill :
      (p : Txpool Tx T) (round bytes : ℕ) (m : Map TxKey (Tx × ℕ)) (k : TxKey)
      → p.mineable ≡ m
      → IsValid env p
      → let (q, payload) = fill env p round bytes m in
        state q k ≡ (if has_key env k payload then in_flight round else state p k)
  unfolding fill promote
  state-fill p round bytes [] k h v = refl
  state-fill p round bytes ((key, (tx, size)) ∷ rest) k h v =
      elim (Bool-cases (ltb bytes p.batch_size)) [
        | inl more ↦
            let q = promote env p round key tx size rest in
            rw more (
              state-fill q round (wrapping_add bytes size) rest k refl
                (promote-IsValid env p round key tx size rest h v)
              ∙ choose (pair_beq (tx_key env tx) k) _ (state q k) (state p k)
                  (state-promote p round key tx size rest k h v))
        | inr full ↦ rw full
      ]
    where
      choose :
          (a b : Bool) (s t : TxState)
          → s ≡ (if a then in_flight round else t)
          → (if b then in_flight round else s) ≡ (if a || b then in_flight round else t)
      choose a b s t e = ground arith

  -- On a valid pool `make_batch` puts the transactions of its payload in flight at the round, and
  -- changes the state of no other.
  pub state-make_batch :
      (p : Txpool Tx T) (round : ℕ) (k : TxKey)
      → IsValid env p
      → let (q, payload) = make_batch env p round in
        state q k ≡ (if has_key env k payload then in_flight round else state p k)
  unfolding make_batch open_round
  state-make_batch p round k v =
      state-fill (open_round p round) round 0 p.mineable k refl
        (open_round-IsValidBut env [] [] p round v)
