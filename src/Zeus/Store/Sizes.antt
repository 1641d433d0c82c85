-- ===== src/Zeus/Store/Sizes.antt =====
-- consensus/src/server/zeus/chain_state/db.rs: the bytes of the cached blocks.
use leto_rs.Prelude.{
  ℕ, ◌+◌, ◌≤◌, ◌≡◌, refl, true, false, ◌||◌, none, some, List, [], ◌∷◌, ◌++◌, nat_eq, nat_beq,
  nat_beq_iff, Map, lookup, insert, remove, lookup-insert, lookup-remove, set_contains, length,
  arith, contains_key,
}
use leto_rs.Types.Quorum.{IsDistinct}
use leto_rs.Zeus.Types.{DataBlock}

abbrev pub Cache : Type 0 → Type 0
Cache Tx = Map ℕ (DataBlock Tx × ℕ)

abbrev pub size_at : {Tx : Type 0} → ℕ → Cache Tx → ℕ
size_at i c = elim (lookup i c) [ none ↦ 0 | some (b, sz) ↦ sz ]

-- The bytes of the blocks of a queue.
abbrev pub total : {Tx : Type 0} → List ℕ → Cache Tx → ℕ
total [] c = 0
total (i ∷ is) c = size_at i c + total is c

pub contains-snoc :
    (i h : ℕ) (xs : List ℕ) → set_contains i (xs ++ h ∷ []) ≡ (set_contains i xs || nat_beq h i)
unfolding set_contains
contains-snoc i h [] = ground arith
contains-snoc i h (x ∷ xs) = ground (arith, contains-snoc i h xs)

pub IsDistinct-snoc :
    (h : ℕ) (xs : List ℕ) → set_contains h xs ≡ false → IsDistinct xs → IsDistinct (xs ++ h ∷ [])
unfolding set_contains
IsDistinct-snoc h [] e d = (refl, tt)
IsDistinct-snoc h (x ∷ xs) e d = (
  ground (arith, contains-snoc x h xs, d.0, e, nat_beq_iff x h, nat_beq_iff h x),
  IsDistinct-snoc h xs (ground (arith, e)) d.1,
)

-- The map is empty where it has no key.
pub no_keys : {V : Type 0} (c : Map ℕ V) → ((i : ℕ) → contains_key i c ≡ false) → length c ≡ 0
unfolding lookup
no_keys [] h = refl
no_keys ((i, v) ∷ c) h = ground (arith, h i, nat_beq_iff i i)

module _ {Tx : Type 0} (h : ℕ) (c : Cache Tx) where
  pub total-insert :
      (xs : List ℕ) (v : DataBlock Tx × ℕ)
      → set_contains h xs ≡ false
      → total xs (insert h v c) ≡ total xs c
  unfolding set_contains
  total-insert [] v e = refl
  total-insert (x ∷ xs) v e =
      ground (arith, e, lookup-insert x h v c, total-insert xs v, nat_beq_iff x h, nat_beq_iff h x)

  pub total-remove : (xs : List ℕ) → set_contains h xs ≡ false → total xs (remove h c) ≡ total xs c
  unfolding set_contains
  total-remove [] e = refl
  total-remove (x ∷ xs) e =
      ground (arith, e, lookup-remove x h c, total-remove xs, nat_beq_iff x h, nat_beq_iff h x)

  pub total-replace :
      (xs : List ℕ) (b : DataBlock Tx) (sz : ℕ)
      → IsDistinct xs
      → set_contains h xs ≡ true
      → total xs (insert h (b, sz) c) + size_at h c ≡ total xs c + sz
  unfolding set_contains
  total-replace [] b sz d e = cc
  total-replace (x ∷ xs) b sz d e = ground (
    arith,
    e,
    d.0,
    lookup-insert x h (b, sz) c,
    total-insert xs (b, sz),
    total-replace xs b sz d.1,
    nat_beq_iff x h,
    nat_beq_iff h x,
  )

  pub total-snoc : (xs : List ℕ) → total (xs ++ h ∷ []) c ≡ total xs c + size_at h c
  total-snoc [] = omega arith
  total-snoc (x ∷ xs) = omega (arith, total-snoc xs)

  pub size-total : (xs : List ℕ) → set_contains h xs ≡ true → size_at h c ≤ total xs c
  unfolding set_contains
  size-total [] e = cc
  size-total (x ∷ xs) e = ground (arith, e, size-total xs, nat_beq_iff x h)
