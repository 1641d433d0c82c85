-- ===== src/Zeus/Admitting/Heads.antt =====
-- consensus/src/server/zeus/phases/data.rs: where `advance_head_via_child_of` ends, and what it leaves.
use leto_rs.Prelude.{
  ℕ, zero, suc, ◌<◌, ◌≡◌, refl, inl, inr, Option, none, some, List, [], ◌∷◌, nat_eq, lookup, length,
  Option-cases, arith,
}
use mathlib.Core.Path.{subst}
use leto_rs.Prelude.Ranks.{keys_above, keys_above-length, keys_above_step}
use leto_rs.Zeus.Types.{DataBlock}
use leto_rs.Zeus.Store.{Codec, get}
use leto_rs.Zeus.Committing.{ZeusState}
use leto_rs.Zeus.Committing.Walks.{IsClimbing}
use leto_rs.Zeus.Admitting.Waking.{HasAdvanced, HasAdvanced-nil, HasAdvanced-cons, advance_to-IsAt}
use leto_rs.Zeus.Admitting.{
  DataState, advance_to, next_block, advance_head, advance_head_via_child_of,
}

-- The blocks from the head along the children, up to one without a stored child, and its height.
pub data IsHeadPath {Tx : Type 0} (codec : Codec Tx) (read : ℕ → Option (DataBlock Tx))
    (zeus : ZeusState Tx) : ℕ → ℕ → List (DataBlock Tx) → ℕ → ℕ → Type 0 where
  tip :
      (head height : ℕ)
      → next_block codec read zeus head ≡ none
      → IsHeadPath codec read zeus head height [] head height
  child :
      (head height next_hash : ℕ) (b : DataBlock Tx) (bs : List (DataBlock Tx)) (last top : ℕ)
      → next_block codec read zeus head ≡ some (next_hash, b)
      → IsHeadPath codec read zeus next_hash b.envelope.height bs last top
      → IsHeadPath codec read zeus head height (b ∷ bs) last top

module _ {Tx : Type 0} (codec : Codec Tx) (read : ℕ → Option (DataBlock Tx)) where
  next_block-child_of :
      (zeus : ZeusState Tx) (head next_hash : ℕ) (b : DataBlock Tx)
      → next_block codec read zeus head ≡ some (next_hash, b)
      → lookup head zeus.child_of ≡ some next_hash
  unfolding next_block
  next_block-child_of zeus head n b e = elim (Option-cases (lookup head zeus.child_of)) [
    | inl f ↦ ground (arith, e, f)
    | inr (c, f) ↦ elim (Option-cases (get codec read zeus.data_block_db c)) [
      | inl g ↦ ground (arith, e, f, g)
      | inr (d, g) ↦ ground (arith, e, f, g)
    ]
  ]

module _ {Tx R : Type 0} (codec : Codec Tx) (read : ℕ → Option (DataBlock Tx)) (rank : ℕ → ℕ) where
  advance_head_total :
      (fuel : ℕ) (s : DataState Tx R)
      → IsClimbing rank s.zeus
      → keys_above rank (rank s.head_hash) s.zeus.child_of < fuel
      → (bs : List (DataBlock Tx)) × (last : ℕ) × (top : ℕ) × (t : DataState Tx R) × (advance_head
            codec read fuel s
          ≡ some t)
        × IsHeadPath codec read s.zeus s.head_hash s.head_height bs last top
        × HasAdvanced s bs last top t
  unfolding advance_head
  advance_head_total zero s v b = elim b [ ]
  advance_head_total (suc fuel) s v l =
      elim (Option-cases (next_block codec read s.zeus s.head_hash)) [
        | inl e ↦ (
          [],
          s.head_hash,
          s.head_height,
          s,
          rw (advance_head, e) refl,
          tip s.head_hash s.head_height e,
          HasAdvanced-nil s,
        )
        | inr ((n, b), e) ↦
            let t = advance_to s n b in
            let a = advance_to-IsAt s n b in
            let f = next_block-child_of codec read s.zeus s.head_hash n b e in
            let down =
              keys_above_step rank s.head_hash n (rank n) s.zeus.child_of f (v s.head_hash n f) in
            let (bs, last, top, u, q, p, h) =
              advance_head_total fuel t (rw a.zeus v)
                (rw (a.zeus, a.head_hash) (omega (arith, l, down))) in
            (
              b ∷ bs,
              last,
              top,
              u,
              rw (advance_head, e) q,
              child s.head_hash s.head_height n b bs last top e (
                  subst (λ z. IsHeadPath codec read z n b.envelope.height bs last top) a.zeus
                    (subst (λ h. IsHeadPath codec read t.zeus h b.envelope.height bs last top)
                      a.head_hash
                      (subst (λ k. IsHeadPath codec read t.zeus t.head_hash k bs last top)
                        a.head_height p))),
              HasAdvanced-cons s t u n b bs last top a h,
            )
      ]

  -- When every child stands above its parent, the advance of the head ends: at the end of the stored
  -- children from the old head. The latest block is then as high as the highest one on the way, where
  -- that is higher than before, and a leader that waits is to propose exactly if a block on the way is
  -- higher than the last attested height, or it was to propose before.
  pub advance_head_via_child_of_lem :
      (s : DataState Tx R)
      → IsClimbing rank s.zeus
      → (bs : List (DataBlock Tx)) × (last : ℕ) × (top : ℕ) × (t : DataState Tx R)
        × (advance_head_via_child_of codec read s ≡ some t)
        × IsHeadPath codec read s.zeus s.head_hash s.head_height bs last top
        × HasAdvanced s bs last top t
  unfolding advance_head_via_child_of
  advance_head_via_child_of_lem s v =
      advance_head_total (suc (length s.zeus.child_of)) s v
        (omega (arith, keys_above-length rank (rank s.head_hash) s.zeus.child_of))
