-- ===== src/Batcher/Safety.antt =====
-- consensus/src/server/rr_batcher.rs: the batcher keeps its pool valid and sends nothing stale.
use mathlib.Core.Path.{subst}
use leto_rs.Prelude.{
  ℕ, ◌≤◌, ◌<◌, ◌≡◌, ◌≢◌, ◌⊎◌, refl, ap, sym, ◌∙◌, Bool, true, false, inl, inr, none, some, List, [],
  ◌∷◌, ◌++◌, nat_beq, if◌then◌else◌, arith, All, All-append, Occurs, eq_of_some, Bool-cases,
  nat_beq_iff,
}
use leto_rs.Txpool.{Env, Txpool, make_batch, high, commit}
use leto_rs.Txpool.Invariant.{IsValid}
use leto_rs.Txpool.Committing.{commit-IsValid}
use leto_rs.Txpool.Evolution.{make_batch-Evolves}
use leto_rs.Txpool.Histories
use leto_rs.Txpool.Histories.{run-Evolves}
use mathlib.Core.List.{append-nil, append_assoc}
use leto_rs.Txpool.Filling.{make_batch-IsValid}
use leto_rs.Txpool.Payload.{make_batch_fresh, commit_marks}
use leto_rs.Batcher.Turns.{
  running-eq, >>=-eq-running, Turned, quiet, sent, enter, turn-Turned, first_call, after,
}
use leto_rs.Batcher.{
  RrBatcher, Event, tick, incoming_tx, incoming_consensus, new_round, proposed_batch,
  committed_batch, rollback_rounds, running, ◌>>=◌, make_and_propose, try_propose, on_tx,
  on_consensus, turn, run, propose,
}

-- No channel is closed.
abbrev pub IsOpen : {Tx : Type 0} → Event Tx → Type 0
IsOpen (incoming_tx none) = ⊥
IsOpen (incoming_consensus none) = ⊥
IsOpen _ = Unit

module _ {Tx T : Type 0} (env : Env Tx T) where
  open env use {client_id, nonce}

  -- The list has no transaction of the client of `old` with its nonce or a smaller one.
  abbrev pub IsNewerThan : Tx → List Tx → Type 0
  IsNewerThan old = All (λ tx. (client_id tx ≢ client_id old) ⊎ (nonce old < nonce tx))

  proposing :
      (test : Bool) (b : RrBatcher Tx T)
      → b.open_channel ≡ true
      → (c : RrBatcher Tx T) × ((if test then make_and_propose env b else running b) ≡ running c)
        × (c.open_channel ≡ true)
  unfolding make_and_propose
  proposing true b o = (after env b b.pool, rw (o, propose) refl, o)
  proposing false b o = (b, refl, o)

  turn_total :
      (e : Event Tx) (b : RrBatcher Tx T)
      → IsValid env b.pool
      → b.open_channel ≡ true
      → IsOpen e
      → (c : RrBatcher Tx T) × (turn env b e ≡ running c) × (c.open_channel ≡ true)
  unfolding turn on_tx on_consensus try_propose
  turn_total tick b v o i = proposing _ b o
  turn_total (incoming_tx none) b v o i = absurd i
  turn_total (incoming_tx (some (tx, size))) b v o i = proposing _ _ o
  turn_total (incoming_consensus none) b v o i = absurd i
  turn_total (incoming_consensus (some (new_round leader round))) b v o i = proposing _ _ o
  turn_total (incoming_consensus (some (proposed_batch batch round))) b v o i = (_, refl, o)
  turn_total (incoming_consensus (some (committed_batch batch round))) b v o i =
      let (p, h, w) = commit-IsValid env b.pool batch round v in
      (record b { pool = p }, rw (h, on_consensus) refl, o)
  turn_total (incoming_consensus (some (rollback_rounds rounds))) b v o i = (_, refl, o)

  ran-IsValid :
      (p q : Txpool Tx T) (ops : List (Histories.Op Tx))
      → IsValid env p
      → Histories.run env p ops ≡ some q
      → IsValid env q
  ran-IsValid p q ops v r =
      let (s, e, w) = Histories.run-IsValid env ops p v in
      subst (IsValid env) (eq_of_some s q (sym e ∙ r)) w

  Turned-IsValid :
      (e : Event Tx) (b c : RrBatcher Tx T)
      → Turned env e b c
      → IsValid env b.pool
      → IsValid env c.pool
  Turned-IsValid e b c (quiet r q) v = ran-IsValid b.pool c.pool (first_call env e) v r
  Turned-IsValid e b c (sent p r can q) v =
      rw q (make_batch-IsValid env p _ (ran-IsValid b.pool p (first_call env e) v r))

  -- A batcher with an open channel and a valid pool neither panics nor stops while no channel is
  -- closed, whatever it is sent, and its pool stays valid.
  pub run_total :
      (es : List (Event Tx)) (b : RrBatcher Tx T)
      → IsValid env b.pool
      → b.open_channel ≡ true
      → All IsOpen es
      → (c : RrBatcher Tx T) × (run env b es ≡ running c) × IsValid env c.pool
  unfolding run
  run_total [] b v o i = (b, refl, v)
  run_total (e ∷ es) b v o i =
      let (c, t, p) = turn_total e b v o i.0 in
      let (d, r, w) = run_total es c (Turned-IsValid e b c (turn-Turned env e b c t) v) p i.1 in
      (d, rw (t, ◌>>=◌) r, w)

  -- What a run adds to the channel, when a transaction is committed already.
  abbrev Adds : Tx → RrBatcher Tx T → RrBatcher Tx T → Type 0
  Adds old b c =
      (batches : List (List Tx)) × (c.outgoing ≡ b.outgoing ++ batches)
      × All (IsNewerThan old) batches

  enter_outgoing : (e : Event Tx) (b : RrBatcher Tx T) → (enter env e b).outgoing ≡ b.outgoing
  enter_outgoing tick b = refl
  enter_outgoing (incoming_consensus (some (new_round leader round))) b = refl
  enter_outgoing (incoming_consensus (some (proposed_batch batch round))) b = refl
  enter_outgoing _ b = refl

  newer :
      (old : Tx) (p : Txpool Tx T) (batch : List Tx)
      → nonce old ≤ high p (client_id old)
      → ((tx : Tx) → Occurs tx batch → high p (client_id tx) < nonce tx)
      → IsNewerThan old batch
  newer old p [] h f = tt
  newer old p (tx ∷ txs) h f = (
    apart (Bool-cases (nat_beq (client_id tx) (client_id old))),
    newer old p txs h (λ t o. f t (inr o)),
  )
    where
      apart :
          ((nat_beq (client_id tx) (client_id old) ≡ true)
            ⊎ (nat_beq (client_id tx) (client_id old) ≡ false))
          → (client_id tx ≢ client_id old) ⊎ (nonce old < nonce tx)
      apart (inl e) = inr (omega (arith, f tx (inl refl), ap (high p) ((nat_beq_iff _ _).0 e)))
      apart (inr e) = inl (ground arith)

  turn-Adds :
      (e : Event Tx) (b c : RrBatcher Tx T) (old : Tx)
      → Turned env e b c
      → IsValid env b.pool
      → nonce old ≤ high b.pool (client_id old)
      → Adds old b c × (nonce old ≤ high c.pool (client_id old))
  turn-Adds e b c old (quiet r q) v h = (
    ([], ap (λ x. x.outgoing) q ∙ enter_outgoing e b ∙ sym (append-nil b.outgoing), tt),
    omega (arith, (run-Evolves env (first_call env e) b.pool c.pool r).marks (client_id old)),
  )
  turn-Adds e b c old (sent p r can q) v h =
      let round = (enter env e b).current_round in
      let valid = ran-IsValid b.pool p (first_call env e) v r in
      let before : nonce old ≤ high p (client_id old) =
        omega (arith, (run-Evolves env (first_call env e) b.pool p r).marks (client_id old)) in
      (
        (
          (make_batch env p round).1 ∷ [],
          ap (λ x. x.outgoing) q,
          (
            newer old p (make_batch env p round).1 before
                (λ tx o. make_batch_fresh env p round tx valid o),
            tt,
          ),
        ),
        omega (
          arith,
          (make_batch-Evolves env p round).marks (client_id old),
          ap (λ x. high x.pool (client_id old)) q,
        ),
      )

  run-Adds :
      (es : List (Event Tx)) (b c : RrBatcher Tx T) (old : Tx)
      → run env b es ≡ running c
      → IsValid env b.pool
      → nonce old ≤ high b.pool (client_id old)
      → Adds old b c
  unfolding run
  run-Adds [] b c old e v h =
      ([], ap (λ x. x.outgoing) (sym (running-eq e)) ∙ sym (append-nil b.outgoing), tt)
  run-Adds (ev ∷ es) b c old e v h =
      let (d, t, r) = >>=-eq-running (turn env b ev) (λ d. run env d es) e in
      let turned = turn-Turned env ev b d t in
      let ((first, o, n), h') = turn-Adds ev b d old turned v h in
      let (rest, o', n') = run-Adds es d c old r (Turned-IsValid ev b d turned v) h' in
      (
        first ++ rest,
        o' ∙ ap (λ x. x ++ rest) o ∙ append_assoc b.outgoing first rest,
        All-append (IsNewerThan old) first rest n n',
      )

  committed_pool :
      (batch : List Tx) (round : ℕ) (b c : RrBatcher Tx T)
      → turn env b (incoming_consensus (some (committed_batch batch round))) ≡ running c
      → commit env b.pool batch round ≡ some c.pool
  unfolding turn on_consensus
  committed_pool batch round b c e = ground arith

  -- After the engine has reported a commit to a batcher with a valid pool, no batch that the
  -- batcher sends in any run holds a transaction of the client of a committed one with its nonce
  -- or a smaller one.
  pub committed_stays_out :
      (batch : List Tx) (round : ℕ) (es : List (Event Tx)) (b c d : RrBatcher Tx T) (old : Tx)
      → IsValid env b.pool
      → turn env b (incoming_consensus (some (committed_batch batch round))) ≡ running c
      → Occurs old batch
      → run env c es ≡ running d
      → (batches : List (List Tx)) × (d.outgoing ≡ c.outgoing ++ batches)
        × All (IsNewerThan old) batches
  committed_stays_out batch round es b c d old v t o r =
      run-Adds es c d old r (Turned-IsValid _ b c (turn-Turned env _ b c t) v)
        (commit_marks env b.pool batch round c.pool old (committed_pool batch round b c t) o)
