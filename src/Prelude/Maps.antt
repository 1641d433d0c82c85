-- ===== src/Prelude/Maps.antt =====
-- Hash maps and hash sets as association lists and lists; the order of a list is an iteration order.
use mathlib.Core.Path.{◌≡◌, refl}
use mathlib.Core.Bool.{Bool, true, false, ◌||◌}
use mathlib.Core.List.{List, [], ◌∷◌}
use mathlib.Core.Option.{Option, none, some}
use native.Mathlib.Omega.{arith}
use leto_rs.Prelude.Tests.{Eq, ◌==◌, if◌then◌else◌}

abbrev pub is_some {ℓ} : {A : Type ℓ} → Option A → Bool
is_some none = false
is_some (some a) = true

abbrev pub unwrap_or {ℓ} : {A : Type ℓ} → Option A → A → A
unwrap_or none d = d
unwrap_or (some a) d = a

abbrev pub Map {ℓ} : Type 0 → Type ℓ → Type ℓ
Map K V = List (K × V)

module _ {ℓ} {K : Type 0} ⦃e : Eq K⦄ {V : Type ℓ} where
  -- `get`
  unfoldable pub lookup : K → Map K V → Option V
  lookup k [] = none
  lookup k ((j, v) ∷ m) = if j == k then some v else lookup k m

  -- `insert`
  unfoldable pub insert : K → V → Map K V → Map K V
  insert k v [] = (k, v) ∷ []
  insert k v ((j, w) ∷ m) = if j == k then (k, v) ∷ m else (j, w) ∷ insert k v m

  -- `remove`, the map that is left
  unfoldable pub remove : K → Map K V → Map K V
  remove k [] = []
  remove k ((j, w) ∷ m) = if j == k then remove k m else (j, w) ∷ remove k m

  -- `retain`, with a test on the key
  unfoldable pub retain : (K → Bool) → Map K V → Map K V
  retain keep [] = []
  retain keep ((j, w) ∷ m) = if keep j then (j, w) ∷ retain keep m else retain keep m

  abbrev pub contains_key : K → Map K V → Bool
  contains_key k m = is_some (lookup k m)

  pub lookup-insert :
      (j k : K) (v : V) (m : Map K V)
      → lookup j (insert k v m) ≡ (if k == j then some v else lookup j m)
  unfolding lookup insert
  lookup-insert j k v [] = refl
  lookup-insert j k v ((i, w) ∷ m) =
      ground (arith, e.beq_iff k j, e.beq_iff i k, e.beq_iff i j, lookup-insert j k v m)

  pub lookup-remove :
      (j k : K) (m : Map K V) → lookup j (remove k m) ≡ (if k == j then none else lookup j m)
  unfolding lookup remove
  lookup-remove j k [] = ground arith
  lookup-remove j k ((i, w) ∷ m) =
      ground (arith, e.beq_iff k j, e.beq_iff i k, e.beq_iff i j, lookup-remove j k m)

  pub lookup-retain :
      (j : K) (keep : K → Bool) (m : Map K V)
      → lookup j (retain keep m) ≡ (if keep j then lookup j m else none)
  unfolding lookup retain
  lookup-retain j keep [] = ground arith
  lookup-retain j keep ((i, w) ∷ m) = ground (arith, e.beq_iff i j, lookup-retain j keep m)

module _ {K : Type 0} ⦃e : Eq K⦄ where
  unfoldable pub set_contains : K → List K → Bool
  set_contains k [] = false
  set_contains k (j ∷ s) = j == k || set_contains k s

  -- `HashSet::insert`, the set after it
  unfoldable pub set_insert : K → List K → List K
  set_insert k s = if set_contains k s then s else k ∷ s

  unfoldable pub set_remove : K → List K → List K
  set_remove k [] = []
  set_remove k (j ∷ s) = if j == k then set_remove k s else j ∷ set_remove k s

  pub contains-set_insert :
      (j k : K) (s : List K) → set_contains j (set_insert k s) ≡ (k == j || set_contains j s)
  unfolding set_contains set_insert
  contains-set_insert j k s = ground (arith, e.beq_iff k j)

  pub contains-set_remove :
      (j k : K) (s : List K)
      → set_contains j (set_remove k s) ≡ (if k == j then false else set_contains j s)
  unfolding set_contains set_remove
  contains-set_remove j k [] = ground arith
  contains-set_remove j k (i ∷ s) =
      ground (arith, e.beq_iff k j, e.beq_iff i k, e.beq_iff i j, contains-set_remove j k s)
