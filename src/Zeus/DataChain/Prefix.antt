-- ===== src/Zeus/DataChain/Prefix.antt =====
-- consensus/src/server/zeus/chain_state/data_chain.rs: `conflicts_data_prefix` and the chain that the
-- commit lock pins.
use leto_rs.Prelude.{
  ℕ, zero, suc, ◌≤◌, ◌<◌, ◌≡◌, refl, sym, ap, ◌∙◌, ◌↔◌, ◌⊎◌, inl, inr, Bool, true, false, none,
  some, List, [], ◌∷◌, nat_eq, nat_beq, nat_beq_iff, ltb, leb, ltb→lt, leb→le, if◌then◌else◌, Map,
  lookup, length, All, All-Occurs, Occurs, Bool-cases, Option-cases, eq_of_some, arith,
}
use leto_rs.Prelude.Ranks.{keys_below, keys_below-length, keys_below_step}
use leto_rs.Zeus.Types.{Attestation}
use leto_rs.Zeus.DataChain.{DataBlockMeta, Cursor, at_meta, walk_down, conflicts_data_prefix}

-- The target is the first block at or below the height, from the cursor up its parents.
pub data IsAncestor (db : Map ℕ DataBlockMeta) (pinned_height : ℕ) : Cursor → Cursor → Type 0 where
  here : (cur : Cursor) → cur.cur_height ≤ pinned_height → IsAncestor db pinned_height cur cur
  parent :
      (cur : Cursor) (m : DataBlockMeta) (target : Cursor)
      → pinned_height < cur.cur_height
      → lookup cur.cur_parent db ≡ some m
      → IsAncestor db pinned_height (at_meta m) target
      → IsAncestor db pinned_height cur target

-- Each block stands under its hash and above its parent, in a rank.
pub record IsRanked (rank : ℕ → ℕ) (db : Map ℕ DataBlockMeta) : Type 0 where
  pub hashes : (h : ℕ) (m : DataBlockMeta) → lookup h db ≡ some m → m.hash ≡ h
  pub above : (h : ℕ) (m : DataBlockMeta) → lookup h db ≡ some m → rank m.parent_hash < rank h

-- The candidate stands above its parent.
abbrev pub IsAbove : (ℕ → ℕ) → Cursor → Type 0
IsAbove rank cur = rank cur.cur_parent < rank cur.cur_hash

module _ (rank : ℕ → ℕ) (db : Map ℕ DataBlockMeta) (pinned : ℕ) where
  -- The parent of a candidate stands above its own parent, and has fewer blocks below.
  parent_ranked :
      (cur : Cursor) (m : DataBlockMeta)
      → IsRanked rank db
      → IsAbove rank cur
      → lookup cur.cur_parent db ≡ some m
      → IsAbove rank (at_meta m)
        × (keys_below rank (rank m.hash) db < keys_below rank (rank cur.cur_hash) db)
  parent_ranked cur m r a e =
      rw (r.hashes cur.cur_parent m e) (
        r.above cur.cur_parent m e,
        keys_below_step rank cur.cur_parent (rank cur.cur_hash) m db e a,
      )

  -- With enough fuel, the walk stops: at a missing ancestor or at the ancestor.
  walk_total :
      (fuel : ℕ) (cur : Cursor)
      → IsRanked rank db
      → IsAbove rank cur
      → keys_below rank (rank cur.cur_hash) db < fuel
      → (walk_down fuel db pinned cur ≡ some none)
        ⊎ ((t : Cursor) × (walk_down fuel db pinned cur ≡ some (some t.cur_hash))
            × IsAncestor db pinned cur t)
  unfolding walk_down
  walk_total zero cur r a b = elim b [ ]
  walk_total (suc fuel) cur r a b = elim (Bool-cases (ltb pinned cur.cur_height)) [
    | inr stop ↦ inr (cur, rw (stop, if◌then◌else◌) refl, here cur (ground (arith, stop)))
    | inl go ↦ elim (Option-cases (lookup cur.cur_parent db)) [
      | inl e ↦ inl (rw (go, if◌then◌else◌) (rw e refl))
      | inr (m, e) ↦
          let (c, d) = parent_ranked cur m r a e in
          elim (walk_total fuel (at_meta m) r c (omega (arith, b, d))) [
            | inl f ↦ inl (rw (go, if◌then◌else◌) (rw e f))
            | inr (t, f, n) ↦ inr (
              t,
              rw (go, if◌then◌else◌) (rw e f),
              parent cur m t (ltb→lt pinned cur.cur_height go) e n,
            )
          ]
    ]
  ]

  walk_complete :
      (fuel : ℕ) (cur t : Cursor)
      → IsRanked rank db
      → IsAbove rank cur
      → keys_below rank (rank cur.cur_hash) db < fuel
      → IsAncestor db pinned cur t
      → walk_down fuel db pinned cur ≡ some (some t.cur_hash)
  unfolding walk_down
  walk_complete zero cur t r a b n = elim b [ ]
  walk_complete (suc fuel) cur t r a b (here _ l) = ground arith
  walk_complete (suc fuel) cur t r a b (parent _ m _ l e n) =
      let (c, d) = parent_ranked cur m r a e in
      ground (arith, l, e, walk_complete fuel (at_meta m) t r c (omega (arith, b, d)) n)

module _ (db : Map ℕ DataBlockMeta) (pinned : ℕ) where
  -- There is one ancestor.
  ancestor_unique :
      (cur t u : Cursor) → IsAncestor db pinned cur t → IsAncestor db pinned cur u → t ≡ u
  ancestor_unique cur t u (here _ l) (here _ k) = refl
  ancestor_unique cur t u (here _ l) (parent _ m _ k e n) = ground arith
  ancestor_unique cur t u (parent _ m _ l e n) (here _ k) = ground arith
  ancestor_unique cur t u (parent _ m _ l e n) (parent _ p _ k f o) =
      ancestor_unique (at_meta m) t u n (rw (eq_of_some m p (sym e ∙ f)) o)

-- The block that an attestation pins is the ancestor of the candidate at its height.
abbrev pub Extends : Map ℕ DataBlockMeta → Cursor → ℕ × Attestation → Type 0
Extends db d (r_s, att) =
    (att.envelope.data_block_height ≤ d.cur_height)
    × (t : Cursor) × IsAncestor db att.envelope.data_block_height d t
    × (t.cur_hash ≡ att.envelope.data_block_hash)

Extends-hash :
    (db : Map ℕ DataBlockMeta) (d t : Cursor) (p : ℕ × Attestation)
    → Extends db d p
    → IsAncestor db p.1.envelope.data_block_height d t
    → t.cur_hash ≡ p.1.envelope.data_block_hash
Extends-hash db d t p (l, u, n, e) k =
    ap (λ c. c.cur_hash) (ancestor_unique db p.1.envelope.data_block_height d t u k n) ∙ e

pub conflicts_data_prefix_lem :
    (rank : ℕ → ℕ) (db : Map ℕ DataBlockMeta) (d : Cursor) (commit_lock : List (ℕ × Attestation))
    → IsRanked rank db
    → IsAbove rank d
    → (b : Bool) × (conflicts_data_prefix d.cur_hash d.cur_height d.cur_parent commit_lock db
        ≡ some b)
      × ((b ≡ false) ↔ All (Extends db d) commit_lock)
unfolding conflicts_data_prefix
conflicts_data_prefix_lem rank db d [] r a = (false, refl, ((λ e. tt), λ k. refl))
conflicts_data_prefix_lem rank db d ((s, att) ∷ lock) r a =
    let (b, e, i) = conflicts_data_prefix_lem rank db d lock r a in
    let h = att.envelope.data_block_height in
    let fuel = suc (length db) in
    let bound : keys_below rank (rank d.cur_hash) db < fuel =
      omega (arith, keys_below-length rank (rank d.cur_hash) db) in
    elim (Bool-cases (leb h d.cur_height)) [
      | inr high ↦
          (true, rw (high, if◌then◌else◌) refl, ((λ f. cc), λ k. ground (arith, high, k.0.0)))
      | inl low ↦ elim (walk_total rank db h fuel d r a bound) [
        | inl f ↦ (
          true,
          rw (low, if◌then◌else◌) (rw f refl),
          ((λ g. cc), λ k. ground (arith, f, walk_complete rank db h fuel d k.0.1 r a bound k.0.2)),
        )
        | inr (t, f, n) ↦ elim (Bool-cases (nat_beq t.cur_hash att.envelope.data_block_hash)) [
          | inl same ↦ (
            b,
            rw (low, if◌then◌else◌) (rw f (rw (same, if◌then◌else◌) e)),
            (
              (λ g. (
                (
                  leb→le h d.cur_height low,
                  t,
                  n,
                  (nat_beq_iff t.cur_hash att.envelope.data_block_hash).0 same,
                ),
                i.0 g,
              )),
              λ k. i.1 k.1,
            ),
          )
          | inr other ↦ (
            true,
            rw (low, if◌then◌else◌) (rw f (rw (other, if◌then◌else◌) refl)),
            (
              (λ g. cc),
              λ k. ground (
                arith,
                other,
                Extends-hash db d t (s, att) k.0 n,
                nat_beq_iff t.cur_hash att.envelope.data_block_hash,
              ),
            ),
          )
        ]
      ]
    ]

-- An ancestor further down, from the ancestor further up.
IsAncestor-below :
    (db : Map ℕ DataBlockMeta) (low high : ℕ) (d t u : Cursor)
    → low ≤ high
    → IsAncestor db high d t
    → IsAncestor db low d u
    → IsAncestor db low t u
IsAncestor-below db low high d t u l (here _ k) n = n
IsAncestor-below db low high d t u l (parent _ m _ k e n) (here _ j) = ground arith
IsAncestor-below db low high d t u l (parent _ m _ k e n) (parent _ p _ j f o) =
    IsAncestor-below db low high (at_meta m) t u l n (rw (eq_of_some m p (sym e ∙ f)) o)

chain_of :
    (db : Map ℕ DataBlockMeta) (d : Cursor) (p q : ℕ × Attestation)
    → Extends db d p
    → Extends db d q
    → p.1.envelope.data_block_height ≤ q.1.envelope.data_block_height
    → (t u : Cursor) × (t.cur_hash ≡ p.1.envelope.data_block_hash)
      × (u.cur_hash ≡ q.1.envelope.data_block_hash)
      × IsAncestor db p.1.envelope.data_block_height u t
chain_of db d p q (l, t, n, e) (k, u, m, f) b = (t, u, e, f, IsAncestor-below db _ _ d u t b m n)

-- Over a store in which every block stands under its hash and above its parent in a rank, where the
-- check lets some candidate pass that stands above its parent, the commit lock is one chain: of two of its attestations,
-- the block that the lower one pins is the ancestor, at its height, of the block that the higher
-- one pins.
pub committed_chain :
    (rank : ℕ → ℕ) (db : Map ℕ DataBlockMeta) (d : Cursor) (commit_lock : List (ℕ × Attestation))
    (p q : ℕ × Attestation)
    → IsRanked rank db
    → IsAbove rank d
    → conflicts_data_prefix d.cur_hash d.cur_height d.cur_parent commit_lock db ≡ some false
    → Occurs p commit_lock
    → Occurs q commit_lock
    → p.1.envelope.data_block_height ≤ q.1.envelope.data_block_height
    → (t u : Cursor) × (t.cur_hash ≡ p.1.envelope.data_block_hash)
      × (u.cur_hash ≡ q.1.envelope.data_block_hash)
      × IsAncestor db p.1.envelope.data_block_height u t
committed_chain rank db d commit_lock p q r a e o n b =
    let (v, f, i) = conflicts_data_prefix_lem rank db d commit_lock r a in
    let k = i.0 (eq_of_some v false (sym f ∙ e)) in
    chain_of db d p q (All-Occurs (Extends db d) p commit_lock k o)
      (All-Occurs (Extends db d) q commit_lock k n) b
