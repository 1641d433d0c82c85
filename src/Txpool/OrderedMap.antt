-- ===== src/Txpool/OrderedMap.antt =====
-- consensus/src/server/tx_pool.rs: the `BTreeMap` of mineable transactions, as an association list
-- in key order. Its `get` and `remove` are those of the shared maps.
use leto_rs.Prelude.{
  ℕ, ◌≡◌, refl, Bool, true, false, not, ◌&&◌, ◌||◌, none, some, List, [], ◌∷◌, arith, ltb, nat_beq,
  pair_beq, pair_eq, pair_beq_iff, if◌then◌else◌, Map, lookup, remove, contains_key, set_contains,
}

-- `(Id, Nonce)`
abbrev pub TxKey : Type 0
TxKey = ℕ × ℕ

-- The order of pairs in Rust is lexicographic.
abbrev pub key_lt : TxKey → TxKey → Bool
key_lt (a, b) (c, d) = ltb a c || (nat_beq a c && ltb b d)

not-eq-lt : (j k : TxKey) → pair_beq j k ≡ false → key_lt k j ≡ false → key_lt j k ≡ true
not-eq-lt (a, b) (c, d) h l = ground arith

-- `lo <= k && k <= hi`
unfoldable pub within : TxKey → TxKey → TxKey → Bool
within lo hi k = not (key_lt k lo || key_lt hi k)

module _ {V : Type 0} where
  -- `BTreeMap::insert`, the map after it.
  unfoldable pub insert_ordered : TxKey → V → Map TxKey V → Map TxKey V
  insert_ordered k v [] = (k, v) ∷ []
  insert_ordered k v ((j, w) ∷ m) =
      if pair_beq j k
      then (k, v) ∷ m
      else if key_lt k j
      then (k, v) ∷ (j, w) ∷ m
      else (j, w) ∷ insert_ordered k v m

  -- The keys of `range(lo..=hi)`.
  unfoldable pub range : TxKey → TxKey → Map TxKey V → List TxKey
  range lo hi [] = []
  range lo hi ((j, w) ∷ m) = if within lo hi j then j ∷ range lo hi m else range lo hi m

  abbrev pub AllAbove : TxKey → Map TxKey V → Type 0
  AllAbove b [] = Unit
  AllAbove b ((j, w) ∷ m) = (key_lt b j ≡ true) × AllAbove b m

  -- Keys ascend strictly, so none stands twice.
  abbrev pub IsSorted : Map TxKey V → Type 0
  IsSorted [] = Unit
  IsSorted ((j, w) ∷ m) = AllAbove j m × IsSorted m

  pub lookup-insert_ordered :
      (j k : TxKey) (v : V) (m : Map TxKey V)
      → lookup j (insert_ordered k v m) ≡ (if pair_beq k j then some v else lookup j m)
  unfolding lookup insert_ordered
  lookup-insert_ordered j k v [] = refl
  lookup-insert_ordered j k v ((i, w) ∷ m) =
      ground
        (arith, pair_beq_iff k j, pair_beq_iff i k, pair_beq_iff i j, lookup-insert_ordered j k v m)

  pub AllAbove-trans :
      (a b : TxKey) (m : Map TxKey V) → key_lt a b ≡ true → AllAbove b m → AllAbove a m
  AllAbove-trans a b [] h s = tt
  AllAbove-trans (a, a') (b, b') (((j, j'), w) ∷ m) h s =
      (ground arith, AllAbove-trans (a, a') (b, b') m h s.1)

  AllAbove-insert :
      (b k : TxKey) (v : V) (m : Map TxKey V)
      → key_lt b k ≡ true
      → AllAbove b m
      → AllAbove b (insert_ordered k v m)
  unfolding insert_ordered
  AllAbove-insert b k v [] h s = (h, tt)
  AllAbove-insert b k v ((j, w) ∷ m) h s = ground (arith, AllAbove-insert b k v m h s.1)

  pub IsSorted-insert :
      (k : TxKey) (v : V) (m : Map TxKey V) → IsSorted m → IsSorted (insert_ordered k v m)
  unfolding insert_ordered
  IsSorted-insert k v [] s = (tt, tt)
  IsSorted-insert k v ((j, w) ∷ m) s = ground (
    arith,
    IsSorted-insert k v m s.1,
    AllAbove-insert j k v m,
    not-eq-lt j k,
    AllAbove-trans k j m,
    pair_beq_iff j k,
  )

  pub AllAbove-remove : (b k : TxKey) (m : Map TxKey V) → AllAbove b m → AllAbove b (remove k m)
  unfolding remove
  AllAbove-remove b k [] s = tt
  AllAbove-remove b k ((j, w) ∷ m) s = ground (arith, AllAbove-remove b k m s.1)

  pub IsSorted-remove : (k : TxKey) (m : Map TxKey V) → IsSorted m → IsSorted (remove k m)
  unfolding remove
  IsSorted-remove k [] s = tt
  IsSorted-remove k ((j, w) ∷ m) s =
      ground (arith, IsSorted-remove k m s.1, AllAbove-remove j k m s.0)

  -- A key below the least one is absent.
  pub lookup_above : (k : TxKey) (m : Map TxKey V) → AllAbove k m → lookup k m ≡ none
  unfolding lookup
  lookup_above k [] s = refl
  lookup_above (a, b) (((c, d), w) ∷ m) s = ground (arith, lookup_above (a, b) m s.1)

  pub remove_above : (k : TxKey) (m : Map TxKey V) → AllAbove k m → remove k m ≡ m
  unfolding remove
  remove_above k [] s = refl
  remove_above (a, b) (((c, d), w) ∷ m) s = ground (arith, remove_above (a, b) m s.1)

  pub contains-range :
      (j lo hi : TxKey) (m : Map TxKey V)
      → set_contains j (range lo hi m) ≡ (if within lo hi j then contains_key j m else false)
  unfolding lookup range set_contains
  contains-range j lo hi [] = ground arith
  contains-range j lo hi ((i, w) ∷ m) = ground (arith, pair_beq_iff i j, contains-range j lo hi m)
