-- ===== src/Zeus/Committing/Walks.antt =====
-- consensus/src/server/zeus/phases/commit.rs: the walk of `on_committed_attestation` ends, along the
-- children of the last committed block.
use leto_rs.Prelude.{
  ℕ, zero, suc, ◌≤◌, ◌<◌, ◌≡◌, refl, ap, ◌⊎◌, inl, inr, Option, none, some, List, [], ◌∷◌, ◌++◌,
  map, nat_eq, leb, leb→le, if◌then◌else◌, lookup, length, Bool-cases, Option-cases, arith,
}
use leto_rs.Prelude.Ranks.{keys_above, keys_above-length, keys_above_step}
use leto_rs.Zeus.DataChain.{DataBlockMeta}
use leto_rs.Zeus.Store.{Codec}
use leto_rs.Zeus.Committing.{
  CommitItem, ZeusCommittedAttestation, ZeusState, Walked, update_lock, next_child, item_of,
  step_to, walk, walk_start, hand_over, on_committed_attestation,
}

-- The blocks from the cursor up to the first at or above the height, or up to one without a known
-- child, each the child of the one before, with the height of the last.
pub data IsWalk {Tx : Type 0} (codec : Codec Tx) (s : ZeusState Tx) (new_height : ℕ)
    : ℕ → ℕ → List ℕ → ℕ → ℕ → Type 0 where
  blocked :
      (cur high : ℕ)
      → next_child codec s cur ≡ none
      → IsWalk codec s new_height cur high [] cur high
  reached :
      (cur high child : ℕ) (m : DataBlockMeta)
      → next_child codec s cur ≡ some (child, m)
      → new_height ≤ m.height
      → IsWalk codec s new_height cur high (child ∷ []) child m.height
  further :
      (cur high child : ℕ) (m : DataBlockMeta) (hashes : List ℕ) (last top : ℕ)
      → next_child codec s cur ≡ some (child, m)
      → m.height < new_height
      → IsWalk codec s new_height child m.height hashes last top
      → IsWalk codec s new_height cur high (child ∷ hashes) last top

-- A child stands above its parent.
abbrev pub IsClimbing : {Tx : Type 0} → (ℕ → ℕ) → ZeusState Tx → Type 0
IsClimbing rank s = (p c : ℕ) → lookup p s.child_of ≡ some c → rank p < rank c

abbrev pub last_of : Option ℕ → List ℕ → Option ℕ
last_of l [] = l
last_of l (h ∷ hs) = last_of (some h) hs

pub append_assoc : {A : Type 0} (xs ys zs : List A) → (xs ++ ys) ++ zs ≡ xs ++ (ys ++ zs)
append_assoc [] ys zs = refl
append_assoc (x ∷ xs) ys zs = ap (λ l. x ∷ l) (append_assoc xs ys zs)

pub append_nil : {A : Type 0} (xs : List A) → xs ++ [] ≡ xs
append_nil [] = refl
append_nil (x ∷ xs) = ap (λ l. x ∷ l) (append_nil xs)

module _ {Tx : Type 0} (codec : Codec Tx) (s : ZeusState Tx) where
  -- What a walk along the hashes leaves in the variables.
  abbrev pub walked : Walked Tx → List ℕ → ℕ → ℕ → Walked Tx
  walked w hashes last top = record {
    to_commit = w.to_commit ++ map (item_of codec s) hashes;
    cur = last;
    last_hash = last_of w.last_hash hashes;
    last_height = top;
  }

  pub next_child-child_of :
      (cur child : ℕ) (m : DataBlockMeta)
      → next_child codec s cur ≡ some (child, m)
      → lookup cur s.child_of ≡ some child
  unfolding next_child
  next_child-child_of cur child m e = elim (Option-cases (lookup cur s.child_of)) [
    | inl f ↦ ground (arith, e, f)
    | inr (c, f) ↦ elim (Option-cases (lookup c s.data_block_db.meta)) [
      | inl g ↦ ground (arith, e, f, g)
      | inr (n, g) ↦ ground (arith, e, f, g)
    ]
  ]

  pub walk_total :
      (rank : ℕ → ℕ) (fuel new_height : ℕ) (w : Walked Tx)
      → IsClimbing rank s
      → keys_above rank (rank w.cur) s.child_of < fuel
      → (hashes : List ℕ) × (last : ℕ) × (top : ℕ) × IsWalk codec s new_height w.cur w.last_height
          hashes last top
        × (walk codec fuel s new_height w ≡ some (walked w hashes last top))
  unfolding walk
  walk_total rank zero new_height w v b = elim b [ ]
  walk_total rank (suc fuel) new_height w v b = elim (Option-cases (next_child codec s w.cur)) [
    | inl e ↦ (
      [],
      w.cur,
      w.last_height,
      blocked w.cur w.last_height e,
      rw (walk, e) (rw (append_nil w.to_commit) refl),
    )
    | inr ((child, m), e) ↦ elim (Bool-cases (leb new_height m.height)) [
      | inl stop ↦ (
        child ∷ [],
        child,
        m.height,
        reached w.cur w.last_height child m e (leb→le new_height m.height stop),
        rw (walk, e) (rw (stop, if◌then◌else◌) refl),
      )
      | inr go ↦
          let f = next_child-child_of w.cur child m e in
          let down = keys_above_step rank w.cur child (rank child) s.child_of f (v w.cur child f) in
          let (hashes, last, top, p, q) =
            walk_total rank fuel new_height (step_to codec s w child m) v
              (omega (arith, b, down)) in
          (
            child ∷ hashes,
            last,
            top,
            further w.cur w.last_height child m hashes last top e (ground (arith, go)) p,
            rw (walk, e) (rw (go, if◌then◌else◌) (rw q (rw append_assoc refl))),
          )
    ]
  ]

  last_of_walk :
      (new_height cur high : ℕ) (hashes : List ℕ) (last top : ℕ)
      → IsWalk codec s new_height cur high hashes last top
      → last_of (some cur) hashes ≡ some last
  last_of_walk new_height cur high hashes last top (blocked c h e) = refl
  last_of_walk new_height cur high hashes last top (reached c h child m e l) = refl
  last_of_walk new_height cur high hashes last top (further c h child m hs la to e l w) =
      last_of_walk new_height child m.height hs la to w

  -- The lists handed over after the hashes.
  abbrev pub sent : List ℕ → List (List (CommitItem Tx))
  sent [] = s.commit_tx
  sent (h ∷ hs) = s.commit_tx ++ (item_of codec s h ∷ map (item_of codec s) hs) ∷ []

  -- The state after a walk along the hashes.
  abbrev pub committed_to : List ℕ → ℕ → ℕ → ZeusState Tx
  committed_to hashes last top = record s {
    zeus_committed_high = top;
    last_committed_hash = last;
    commit_tx = sent hashes;
  }

  hand_over-walked :
      (new_height : ℕ) (hashes : List ℕ) (last top : ℕ)
      → IsWalk codec s new_height s.last_committed_hash s.zeus_committed_high hashes last top
      → hand_over codec s (walked (walk_start codec s) hashes last top)
        ≡ committed_to hashes last top
  unfolding hand_over
  hand_over-walked new_height hashes last top (blocked c h e) = refl
  hand_over-walked new_height hashes last top (reached c h child m e l) = refl
  hand_over-walked new_height hashes last top (further c h child m hs la to e l w) =
      rw (last_of_walk new_height child m.height hs la to w) refl

abbrev pub locked : {Tx : Type 0} → ZeusState Tx → ZeusCommittedAttestation → ZeusState Tx
locked s committed = record s { commit_lock = update_lock committed s.commit_lock }

-- When every child stands above its parent, `on_committed_attestation` ends. It updates the commit
-- lock. At a height that is not above the committed one it does nothing else. Otherwise it walks
-- from the last committed block along the children, up to the first block at or above the height or
-- up to one without a known child, makes the last block of the walk the last committed one, and
-- hands the items of the walk over in its order, if there are any.
pub on_committed_attestation_lem :
    {Tx : Type 0} (codec : Codec Tx) (rank : ℕ → ℕ) (s : ZeusState Tx)
    (committed : ZeusCommittedAttestation)
    → IsClimbing rank s
    → let new_height = committed.attestation.envelope.data_block_height in
      let t = locked s committed in
      ((new_height ≤ s.zeus_committed_high) × (on_committed_attestation codec s committed ≡ some t))
      ⊎ ((hashes : List ℕ) × (last : ℕ) × (top : ℕ) × (s.zeus_committed_high < new_height)
          × IsWalk codec t new_height s.last_committed_hash s.zeus_committed_high hashes last top
          × (on_committed_attestation codec s committed
              ≡ some (committed_to codec t hashes last top)))
unfolding on_committed_attestation
on_committed_attestation_lem codec rank s committed v =
    let new_height = committed.attestation.envelope.data_block_height in
    let t = locked s committed in
    let n = s.last_committed_hash in
    elim (Bool-cases (leb new_height s.zeus_committed_high)) [
      | inl low ↦ inl (leb→le new_height s.zeus_committed_high low, rw (low, if◌then◌else◌) refl)
      | inr high ↦
          let (hashes, last, top, p, q) =
            walk_total codec t rank (suc (length s.child_of)) new_height (walk_start codec t) v
              (omega (arith, keys_above-length rank (rank n) s.child_of)) in
          inr (
            hashes,
            last,
            top,
            ground (arith, high),
            p,
            rw (high, if◌then◌else◌)
                (rw q (ap some (hand_over-walked codec t new_height hashes last top p))),
          )
    ]
