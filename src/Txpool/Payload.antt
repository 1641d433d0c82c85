-- ===== src/Txpool/Payload.antt =====
-- consensus/src/server/tx_pool.rs: what `make_batch` proposes.
use mathlib.Core.List.{map}
use mathlib.Core.Path.{subst}
use leto_rs.Prelude.{
  ℕ, ◌+◌, ◌≤◌, ◌<◌, ◌≡◌, refl, ap, sym, ◌∙◌, some, List, [], ◌∷◌, ◌++◌, arith, ltb, ◌⊎◌, Bool-cases,
  inl, inr, lookup, pair_beq_iff, pair_eq, set_contains, Map, wrapping_add, Occurs, eq_of_some,
}
use leto_rs.Txpool.OrderedMap.{TxKey}
use leto_rs.Txpool.Sizes.{total}
use leto_rs.Txpool.Invariant.{IsValid, open_round-IsValidBut}
use leto_rs.Txpool.Filling.{promote-IsValid}
use leto_rs.Txpool.Committing.{high-commit_tx, commit-IsValid}
use leto_rs.Txpool.Evolution.{commit_txs-Evolves, commit_txs-Evolves-commit}
use leto_rs.Txpool.Histories.{Op, run, run-Evolves, run-IsValid}
use leto_rs.Txpool.{
  Env, Txpool, high, open_round, promote, fill, make_batch, commit_tx, commit_txs, commit,
}

module _ {Tx : Type 0} where
  abbrev pub transactions : Map TxKey (Tx × ℕ) → List Tx
  transactions = map (λ e. e.1.0)

  -- Before each of the entries is taken, the bytes taken are below the limit.
  abbrev pub TakenBelow : ℕ → ℕ → Map TxKey (Tx × ℕ) → Type 0
  TakenBelow limit bytes [] = Unit
  TakenBelow limit bytes ((k, (tx, size)) ∷ m) = (bytes < limit) × TakenBelow limit (bytes + size) m

  -- `payload` is the first entries of `m` in key order, as few as reach the limit, or all of them;
  -- `left` is the rest.
  abbrev pub IsCut : ℕ → ℕ → Map TxKey (Tx × ℕ) → List Tx → Map TxKey (Tx × ℕ) → Type 0
  IsCut limit bytes m payload left =
      (taken : Map TxKey (Tx × ℕ)) × (m ≡ taken ++ left)
      × (payload ≡ transactions taken)
      × TakenBelow limit bytes taken
      × ((left ≡ []) ⊎ (limit ≤ bytes + total taken))

module _ {Tx T : Type 0} (env : Env Tx T) where
  open env use {client_id, nonce}

  mineable_fresh :
      (p : Txpool Tx T) (k : TxKey) (tx : Tx) (size : ℕ)
      → IsValid env p
      → lookup k p.mineable ≡ some (tx, size)
      → high p (client_id tx) < nonce tx
  mineable_fresh p k tx size v h =
      unfold set_contains in ground (arith, v.fresh k, v.mineable_keyed k tx size)

  fill_fresh :
      (p : Txpool Tx T) (round bytes : ℕ) (m : Map TxKey (Tx × ℕ)) (tx : Tx)
      → p.mineable ≡ m
      → IsValid env p
      → Occurs tx (fill env p round bytes m).1
      → high p (client_id tx) < nonce tx
  unfolding fill promote
  fill_fresh p round bytes [] tx h v o = absurd o
  fill_fresh p round bytes ((key, (tx', size)) ∷ rest) tx h v o =
      elim (Bool-cases (ltb bytes p.batch_size)) [
        | inl more ↦ elim (rw more at o) [
          | inl same ↦ rw same (mineable_fresh p key tx' size v first)
          | inr later ↦
              fill_fresh (promote env p round key tx' size rest) round (wrapping_add bytes size)
                rest tx refl (promote-IsValid env p round key tx' size rest h v) later
        ]
        | inr full ↦ absurd (rw full at o)
      ]
    where
      first : lookup key p.mineable ≡ some (tx', size)
      first = unfold lookup in ground (arith, h, pair_beq_iff key key)

  pub make_batch_fresh :
      (p : Txpool Tx T) (round : ℕ) (tx : Tx)
      → IsValid env p
      → Occurs tx (make_batch env p round).1
      → high p (client_id tx) < nonce tx
  unfolding make_batch open_round
  make_batch_fresh p round tx v o =
      fill_fresh (open_round p round) round 0 p.mineable tx refl
        (open_round-IsValidBut env [] [] p round v) o

  -- A committed transaction is at most its client's mark.
  commit_txs_marks :
      (batch : List Tx) (p : Txpool Tx T) (old : Tx)
      → Occurs old batch
      → nonce old ≤ high (commit_txs env p batch) (client_id old)
  unfolding commit_txs
  commit_txs_marks [] p old o = absurd o
  commit_txs_marks (tx ∷ txs) p old (inl here) =
      rw here (
        omega
          (arith, (commit_txs-Evolves env (commit_tx env p tx) txs).marks (client_id tx), first))
    where
      first : nonce tx ≤ high (commit_tx env p tx) (client_id tx)
      first = ground (arith, high-commit_tx env p tx (client_id tx))
  commit_txs_marks (tx ∷ txs) p old (inr later) =
      commit_txs_marks txs (commit_tx env p tx) old later

  pub commit_marks :
      (p : Txpool Tx T) (batch : List Tx) (round : ℕ) (q : Txpool Tx T) (old : Tx)
      → commit env p batch round ≡ some q
      → Occurs old batch
      → nonce old ≤ high q (client_id old)
  commit_marks p batch round q old e o = omega (
    arith,
    commit_txs_marks batch p old o,
    (commit_txs-Evolves-commit env p batch round q e).marks (client_id old),
  )

  -- After `commit` on a valid pool, no batch that this node makes later holds a transaction of the
  -- client of a committed one with its nonce or a smaller one, whatever calls lie between.
  pub never_proposed_again :
      (p q s : Txpool Tx T) (batch : List Tx) (r round : ℕ) (ops : List (Op Tx)) (old tx : Tx)
      → IsValid env p
      → commit env p batch r ≡ some q
      → run env q ops ≡ some s
      → Occurs old batch
      → Occurs tx (make_batch env s round).1
      → client_id tx ≡ client_id old
      → nonce old < nonce tx
  never_proposed_again p q s batch r round ops old tx v e h o t c =
      let (q', e', w) = commit-IsValid env p batch r v in
      let (s', h', u) =
        run-IsValid env ops q (subst (IsValid env) (eq_of_some q' q (sym e' ∙ e)) w) in
      let valid : IsValid env s = subst (IsValid env) (eq_of_some s' s (sym h' ∙ h)) u in
      omega (
        arith,
        commit_marks p batch r q old e o,
        (run-Evolves env ops q s h).marks (client_id old),
        make_batch_fresh s round tx valid t,
        ap (high s) c,
      )
