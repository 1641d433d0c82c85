-- ===== src/Zeus/Committing/Histories.antt =====
-- consensus/src/server/zeus/phases/commit.rs: the committed chain and the commit lock over every history
-- of committed attestations, admitted blocks and emitted heights.
use leto_rs.Prelude.{
  ◌>>=◌, ℕ, ◌<◌, ◌≡◌, refl, ap, inl, inr, Option, none, some, List, [], ◌∷◌, map, max, nat_eq,
  nat_beq, nat_beq_iff, leb, if◌then◌else◌, lookup, lookup-insert, Bool-cases, arith,
}
use mathlib.Core.Path.{subst}
use leto_rs.Types.Quorum.{IsDistinct}
use leto_rs.Zeus.Types.{DataBlock, DataBlockEnvelope, Attestation}
use leto_rs.Zeus.DataChain.{latest_committed_attestation, max_entry, later_max}
use leto_rs.Zeus.Store.{Codec, with_byte_budget}
use leto_rs.Zeus.Store.Hashes.{IsHashed, insert_block-IsHashed, with_byte_budget-IsHashed}
use leto_rs.Zeus.Committing.{
  ZeusCommittedAttestation, ZeusState, Event, committed, admitted, emitted, step, run, start,
  insert_non_head, pinned_height, retain_lock, already_covered, update_lock, item_of,
}
use leto_rs.Zeus.Committing.Walks.{
  IsClimbing, IsWalk, append_nil, locked, committed_to, on_committed_attestation_lem,
}
use leto_rs.Zeus.Committing.Chain.{
  IsChain, end, IsChain-append, link_climbs, chain-IsDistinct, log_of, log_of-snoc, hashes-items,
  IsHonest, walk_chain,
}

-- The greatest height of the committed attestations so far and of the event.
abbrev raise : {Tx : Type 0} → Event Tx → Option ℕ → Option ℕ
raise (committed c) none = some c.attestation.envelope.data_block_height
raise (committed c) (some h) = some (max h c.attestation.envelope.data_block_height)
raise (admitted b) o = o
raise (emitted h) o = o

abbrev pub highest : {Tx : Type 0} → List (Event Tx) → Option ℕ → Option ℕ
highest [] o = o
highest (e ∷ es) o = highest es (raise e o)

-- The lock holds one entry, at the height, or none.
abbrev IsTop : Option ℕ → List (ℕ × Attestation) → Type 0
IsTop none lock = lock ≡ []
IsTop (some h) lock = (p : ℕ × Attestation) × (lock ≡ p ∷ []) × (pinned_height p ≡ h)

update_lock-IsTop :
    (Tx : Type 0) (c : ZeusCommittedAttestation) (o : Option ℕ) (lock : List (ℕ × Attestation))
    → IsTop o lock
    → IsTop (raise {Tx = Tx} (committed c) o) (update_lock c lock)
unfolding update_lock retain_lock already_covered
update_lock-IsTop Tx c none lock e = rw e ((c.sig_round, c.attestation), refl, refl)
update_lock-IsTop Tx c (some h) lock (p, e, f) =
    let n = c.attestation.envelope.data_block_height in
    rw e (elim (Bool-cases (leb n (pinned_height p))) [
      | inl k ↦ (p, rw (k, if◌then◌else◌) (rw (k, if◌then◌else◌) refl), ground (arith, k, f))
      | inr k ↦ ((c.sig_round, c.attestation), rw (k, if◌then◌else◌) refl, ground (arith, k, f))
    ])

latest_top :
    (o : Option ℕ) (lock : List (ℕ × Attestation))
    → IsTop o lock
    → (do att ← latest_committed_attestation lock; some att.envelope.data_block_height) ≡ o
unfolding latest_committed_attestation max_entry later_max
latest_top none lock e = rw e refl
latest_top (some h) lock (p, e, f) = rw e (ap some f)

module _ {Tx : Type 0} (codec : Codec Tx) (rank : ℕ → ℕ)
    (rank_lem : (e : DataBlockEnvelope Tx) → rank e.parent_hash < rank (codec.hash e)) where
  open codec use {hash}

  record IsOrderly (first : ℕ) (s : ZeusState Tx) : Type 0 where
    hashed : IsHashed codec s.data_block_db
    honest : IsHonest codec s
    chain : IsChain hash first (log_of codec s.commit_tx) s.last_committed_hash

  climbing : (s : ZeusState Tx) → IsHonest codec s → IsClimbing rank s
  climbing s v p c e = let (env, a, b) = v p c e in link_climbs hash rank rank_lem p c env a b

  committed_to-IsOrderly :
      (first : ℕ) (s : ZeusState Tx) (new_height : ℕ) (hs : List ℕ) (last top : ℕ)
      → IsOrderly first s
      → IsWalk codec s new_height s.last_committed_hash s.zeus_committed_high hs last top
      → IsOrderly first (committed_to codec s hs last top)
  committed_to-IsOrderly first s n [] last top v w = record {
    hashed = v.hashed;
    honest = v.honest;
    chain =
        subst (λ l. IsChain hash first l last) (append_nil (log_of codec s.commit_tx))
          (IsChain-append hash first s.last_committed_hash last (log_of codec s.commit_tx) []
            v.chain
            (walk_chain codec s n s.last_committed_hash s.zeus_committed_high [] last top v.honest
              w));
  }
  committed_to-IsOrderly first s n (h ∷ hs) last top v w = record {
    hashed = v.hashed;
    honest = v.honest;
    chain = rw (log_of-snoc codec s.commit_tx (map (item_of codec s) (h ∷ hs))) (
        rw (hashes-items codec s (h ∷ hs) v.hashed) (
          IsChain-append hash first s.last_committed_hash last (log_of codec s.commit_tx) (h ∷ hs)
            v.chain
            (walk_chain codec s n s.last_committed_hash s.zeus_committed_high (h ∷ hs) last top
              v.honest w)));
  }

  insert_non_head-IsHonest :
      (s : ZeusState Tx) (b : DataBlock Tx)
      → IsHonest codec s
      → IsHonest codec (insert_non_head codec s b (hash b.envelope) b.envelope.parent_hash)
  unfolding insert_non_head
  insert_non_head-IsHonest s b v p c e =
      let l = lookup-insert p b.envelope.parent_hash (hash b.envelope) s.child_of in
      elim (Bool-cases (nat_beq b.envelope.parent_hash p)) [
        | inl same ↦
            (b.envelope, ground (arith, same, l, e), (nat_beq_iff b.envelope.parent_hash p).0 same)
        | inr other ↦ v p c (ground (arith, other, l, e))
      ]

  step_total :
      (first : ℕ) (s : ZeusState Tx) (e : Event Tx) (o : Option ℕ)
      → IsOrderly first s
      → IsTop o s.commit_lock
      → (t : ZeusState Tx) × (step codec s e ≡ some t)
        × IsOrderly first t
        × IsTop (raise e o) t.commit_lock
  unfolding step insert_non_head
  step_total first s (committed c) o v k =
      let t = locked s c in
      let u = update_lock-IsTop Tx c o s.commit_lock k in
      let w : IsOrderly first t = record {
        hashed = v.hashed;
        honest = v.honest;
        chain = v.chain;
      } in
      elim (on_committed_attestation_lem codec rank s c (climbing s v.honest)) [
        | inl (low, q) ↦ (t, q, w, u)
        | inr (hs, last, top, high, p, q) ↦ (
          committed_to codec t hs last top,
          q,
          committed_to-IsOrderly first t c.attestation.envelope.data_block_height hs last top w p,
          u,
        )
      ]
  step_total first s (admitted b) o v k = (
    _,
    refl,
    record {
      hashed = insert_block-IsHashed codec s.data_block_db b v.hashed;
      honest = insert_non_head-IsHonest s b v.honest;
      chain = v.chain;
    },
    k,
  )
  step_total first s (emitted h) o v k = (
    _,
    refl,
    record {
      hashed = record { genesis = v.hashed.genesis; cached = v.hashed.cached };
      honest = v.honest;
      chain = v.chain;
    },
    k,
  )

  run_total :
      (first : ℕ) (s : ZeusState Tx) (es : List (Event Tx)) (o : Option ℕ)
      → IsOrderly first s
      → IsTop o s.commit_lock
      → (t : ZeusState Tx) × (run codec s es ≡ some t)
        × IsOrderly first t
        × IsTop (highest es o) t.commit_lock
  unfolding run
  run_total first s [] o v k = (s, refl, v, k)
  run_total first s (e ∷ es) o v k =
      let (t, p, w, l) = step_total first s e o v k in
      let (u, q, x, m) = run_total first t es (raise e o) w l in (u, rw p q, x, m)

  start-IsOrderly :
      (cap_bytes : ℕ)
      → IsOrderly (start codec cap_bytes).last_committed_hash (start codec cap_bytes)
  unfolding start lookup
  start-IsOrderly cap_bytes = record {
    hashed = with_byte_budget-IsHashed codec cap_bytes 0;
    honest = λ p c e. cc;
    chain = end (with_byte_budget codec cap_bytes 0).genesis_hash;
  }

  -- When every envelope's hash stands above its parent in the rank: from the start, over any committed
  -- attestations, admitted blocks and emitted heights, also where two blocks have the same parent, the
  -- commit ends, and the blocks handed over are one chain from the genesis block, each the child of
  -- the one before and the last one the last committed block, with no block twice.
  pub run_commits :
      (cap_bytes : ℕ) (es : List (Event Tx))
      → let genesis = (start codec cap_bytes).last_committed_hash in
        (t : ZeusState Tx) × (run codec (start codec cap_bytes) es ≡ some t)
        × IsChain hash genesis (log_of codec t.commit_tx) t.last_committed_hash
        × IsDistinct (genesis ∷ log_of codec t.commit_tx)
  unfolding start
  run_commits cap_bytes es =
      let s = start codec cap_bytes in
      let first = s.last_committed_hash in
      let (t, p, v, k) = run_total first s es none (start-IsOrderly cap_bytes) refl in
      let log = log_of codec t.commit_tx in
      (t, p, v.chain, chain-IsDistinct hash rank rank_lem first t.last_committed_hash log v.chain)

  -- When every envelope's hash stands above its parent in the rank: from the start, over any history,
  -- `latest_committed_attestation` of the commit lock gives an attestation at the greatest height of the
  -- committed attestations of the history, and none if it has none.
  pub run_locks :
      (cap_bytes : ℕ) (es : List (Event Tx))
      → (t : ZeusState Tx) × (run codec (start codec cap_bytes) es ≡ some t)
        × ((do
          att ← latest_committed_attestation t.commit_lock
          some att.envelope.data_block_height)
            ≡ highest es none)
  unfolding start
  run_locks cap_bytes es =
      let s = start codec cap_bytes in
      let first = s.last_committed_hash in
      let (t, p, v, k) = run_total first s es none (start-IsOrderly cap_bytes) refl in
      (t, p, latest_top (highest es none) t.commit_lock k)
