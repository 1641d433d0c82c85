-- ===== src/Leto/LeaderContext/Windows.antt =====
-- Lists without repetition, and the last entry of a list.
use leto_rs.Prelude.{
  ℕ, ◌+◌, ◌<◌, ◌≡◌, refl, ap, true, false, ◌||◌, some, List, [], ◌∷◌, ◌++◌, nat_eq, nat_beq,
  nat_beq_iff, set_contains, set_insert, set_remove, length, last?, init, arith,
  contains-set_remove,
}
pub use leto_rs.Types.Quorum.{IsDistinct, IsDistinct-insert}

-- A list that is not empty is its initial part and its last entry.
pub last_split :
    (xs : List ℕ)
    → 0 < length xs
    → (x : ℕ) × (last? xs ≡ some x)
      × (length xs ≡ length (init xs) + 1)
      × ((i : ℕ) → set_contains i xs ≡ (set_contains i (init xs) || nat_beq x i))
unfolding set_contains
last_split [] h = elim h [ ]
last_split (x ∷ []) h = (x, refl, refl, λ i. ground arith)
last_split (x ∷ y ∷ xs) h =
    let (z, e, l, c) = last_split (y ∷ xs) (omega arith) in
    (z, e, omega (arith, l), λ i. ground (arith, c i))

pub IsDistinct-init :
    (xs : List ℕ) (x : ℕ)
    → last? xs ≡ some x
    → IsDistinct xs
    → IsDistinct (init xs) × (set_contains x (init xs) ≡ false)
unfolding set_contains
IsDistinct-init [] x e d = cc
IsDistinct-init (y ∷ []) x e d = (tt, refl)
IsDistinct-init (y ∷ z ∷ xs) x e d =
    let (t, c) = IsDistinct-init (z ∷ xs) x e d.1 in
    let (w, f, l, g) = last_split (z ∷ xs) (omega arith) in
    ((ground (arith, g y, d.0), t), ground (arith, g y, d.0, c, e, f, nat_beq_iff w y))

pub init-append : (xs ys : List ℕ) → 0 < length ys → init (xs ++ ys) ≡ xs ++ init ys
init-append [] ys h = refl
init-append (x ∷ []) (y ∷ ys) h = refl
init-append (x ∷ z ∷ xs) ys h = ap (◌∷◌ x) (init-append (z ∷ xs) ys h)
init-append (x ∷ []) [] h = elim h [ ]

pub IsDistinct-append : (xs ys : List ℕ) → IsDistinct (xs ++ ys) → IsDistinct xs
unfolding set_contains
IsDistinct-append [] ys d = tt
IsDistinct-append (x ∷ xs) ys d = (contains_front x xs ys d.0, IsDistinct-append xs ys d.1)
  where
    contains_front :
        (i : ℕ) (xs ys : List ℕ) → set_contains i (xs ++ ys) ≡ false → set_contains i xs ≡ false
    contains_front i [] ys h = refl
    contains_front i (x ∷ xs) ys h = ground (arith, contains_front i xs ys)

pub IsDistinct-remove : (x : ℕ) (s : List ℕ) → IsDistinct s → IsDistinct (set_remove x s)
unfolding set_remove
IsDistinct-remove x [] d = tt
IsDistinct-remove x (y ∷ s) d = ground (arith, IsDistinct-remove x s d.1, contains-set_remove y x s)

pub length-insert :
    (x : ℕ) (s : List ℕ) → set_contains x s ≡ false → length (set_insert x s) ≡ length s + 1
unfolding set_insert
length-insert x s h = ground arith

remove_absent : (x : ℕ) (s : List ℕ) → set_contains x s ≡ false → set_remove x s ≡ s
unfolding set_remove set_contains
remove_absent x [] h = refl
remove_absent x (y ∷ s) h = ground (arith, remove_absent x s)

pub length-remove :
    (x : ℕ) (s : List ℕ)
    → IsDistinct s
    → set_contains x s ≡ true
    → length (set_remove x s) + 1 ≡ length s
unfolding set_remove set_contains
length-remove x [] d h = cc
length-remove x (y ∷ s) d h =
    ground (arith, nat_beq_iff y x, d.0, remove_absent x s, length-remove x s d.1)

pub contains-nonempty : (x : ℕ) (s : List ℕ) → set_contains x s ≡ true → 0 < length s
unfolding set_contains
contains-nonempty x [] h = cc
contains-nonempty x (y ∷ s) h = omega arith
