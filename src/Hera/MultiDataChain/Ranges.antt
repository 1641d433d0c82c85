-- ===== src/Hera/MultiDataChain/Ranges.antt =====
-- consensus/src/server/hera/chain_state/multi_data_chain.rs: `walk_range`, which reads the blocks of a
-- range of heights for the commit.
use leto_rs.Prelude.{
  ◌>>=◌, ℕ, zero, suc, ◌≤◌, ◌<◌, ◌≡◌, refl, sym, inl, inr, ◌&&◌, Option, none, some, List, [], ◌∷◌,
  ◌++◌, nat_eq, nat_beq, nat_beq_iff, ltb, leb, if◌then◌else◌, Map, lookup, length, All, All-append,
  Bool-cases, Option-cases, arith,
}
use mathlib.Core.Path.{subst}
use leto_rs.Zeus.Types.{DataBlock}
use leto_rs.Hera.MultiDataChain.{MultiAuthorDataChainState, Hashing}
use leto_rs.Hera.MultiDataChain.Links.{IsLinked}

module _ {Tx : Type 0} where
  -- The loop, on fuel; `none` is out of fuel.
  unfoldable pub collect_down : ℕ → Map ℕ (DataBlock Tx) → ℕ → ℕ → Option (List (DataBlock Tx))
  collect_down zero store current_hash from_height = none
  collect_down (suc fuel) store current_hash from_height = elim (lookup current_hash store) [
    | none ↦ some []
    | some block ↦
        let rest = collect_down fuel store block.envelope.parent_hash from_height in
        if leb block.envelope.height from_height
        then some []
        else if nat_beq block.envelope.height 0
        then some (block ∷ [])
        else do chain ← rest; some (block ∷ chain)
  ]

  unfoldable pub reversed : List (DataBlock Tx) → List (DataBlock Tx)
  reversed [] = []
  reversed (b ∷ bs) = reversed bs ++ b ∷ []

  unfoldable pub retain_range : ℕ → ℕ → List (DataBlock Tx) → List (DataBlock Tx)
  retain_range from_height to_height [] = []
  retain_range from_height to_height (b ∷ bs) =
      if ltb from_height b.envelope.height && leb b.envelope.height to_height
      then b ∷ retain_range from_height to_height bs
      else retain_range from_height to_height bs

  -- `walk_range`
  unfoldable pub walk_range :
      MultiAuthorDataChainState Tx → ℕ → ℕ → ℕ → Option (List (DataBlock Tx))
  walk_range s tip_hash from_height to_height =
      let chain = collect_down (suc (length s.block_store)) s.block_store tip_hash from_height in
      if leb to_height from_height
      then some []
      else do bs ← chain; some (retain_range from_height to_height (reversed bs))

  All-reversed :
      (P : DataBlock Tx → Type 0) (bs : List (DataBlock Tx)) → All P bs → All P (reversed bs)
  unfolding reversed
  All-reversed P [] k = tt
  All-reversed P (b ∷ bs) k = All-append P (reversed bs) (b ∷ []) (All-reversed P bs k.1) (k.0, tt)

  All-retain_range :
      (P : DataBlock Tx → Type 0) (from to : ℕ) (bs : List (DataBlock Tx))
      → All P bs
      → All
          (λ b. (from < b.envelope.height) × (b.envelope.height ≤ to) × P b)
          (retain_range from to bs)
  unfolding retain_range
  All-retain_range P from to [] k = tt
  All-retain_range P from to (b ∷ bs) k =
      elim (Bool-cases (ltb from b.envelope.height && leb b.envelope.height to)) [
        | inl e ↦
            rw (e, if◌then◌else◌)
              ((ground (arith, e), ground (arith, e), k.0), All-retain_range P from to bs k.1)
        | inr e ↦ rw (e, if◌then◌else◌) (All-retain_range P from to bs k.1)
      ]

module _ {Tx : Type 0} (hashing : Hashing Tx) where
  open hashing use {hash, rank, rank_lem}

  -- The keys of at most the rank.
  keys_below : ℕ → Map ℕ (DataBlock Tx) → ℕ
  keys_below r [] = 0
  keys_below r ((k, v) ∷ m) = if leb (rank k) r then suc (keys_below r m) else keys_below r m

  keys_below-length : (r : ℕ) (m : Map ℕ (DataBlock Tx)) → keys_below r m ≤ length m
  unfolding keys_below
  keys_below-length r [] = omega arith
  keys_below-length r ((k, v) ∷ m) = ground (arith, keys_below-length r m)

  keys_below_rise : (r q : ℕ) (m : Map ℕ (DataBlock Tx)) → r ≤ q → keys_below r m ≤ keys_below q m
  unfolding keys_below
  keys_below_rise r q [] h = omega arith
  keys_below_rise r q ((k, v) ∷ m) h = ground (arith, h, keys_below_rise r q m h)

  keys_below_step :
      (p r : ℕ) (m : Map ℕ (DataBlock Tx)) (c : DataBlock Tx)
      → lookup p m ≡ some c
      → r < rank p
      → keys_below r m < keys_below (rank p) m
  unfolding keys_below lookup
  keys_below_step p r [] c e h = cc
  keys_below_step p r ((k, v) ∷ m) c e h = elim (Bool-cases (nat_beq k p)) [
    | inl same ↦
        subst (λ j. keys_below r ((j, v) ∷ m) < keys_below (rank p) ((j, v) ∷ m))
          (sym ((nat_beq_iff k p).0 same))
          (ground (arith, h, keys_below_rise r (rank p) m (omega arith)))
    | inr other ↦ ground (arith, h, other, e, keys_below_step p r m c)
  ]

  abbrev pub IsStoredIn : MultiAuthorDataChainState Tx → DataBlock Tx → Type 0
  IsStoredIn s b = lookup (hash b.envelope) s.block_store ≡ some b

  collect_total :
      (fuel : ℕ) (s : MultiAuthorDataChainState Tx) (h from : ℕ)
      → IsLinked hashing s
      → keys_below (rank h) s.block_store < fuel
      → (bs : List (DataBlock Tx)) × (collect_down fuel s.block_store h from ≡ some bs)
        × All (IsStoredIn s) bs
  unfolding collect_down
  collect_total zero s h from v l = elim l [ ]
  collect_total (suc fuel) s h from v l = elim (Option-cases (lookup h s.block_store)) [
    | inl e ↦ ([], rw (collect_down, e) refl, tt)
    | inr (b, e) ↦
        let here : hash b.envelope ≡ h = v.hashed h b e in
        let stored : IsStoredIn s b = subst (λ j. lookup j s.block_store ≡ some b) (sym here) e in
        elim (Bool-cases (leb b.envelope.height from)) [
          | inl low ↦ ([], rw (collect_down, e) (rw (low, if◌then◌else◌) refl), tt)
          | inr high ↦ elim (Bool-cases (nat_beq b.envelope.height 0)) [
            | inl bottom ↦ (
              b ∷ [],
              rw (collect_down, e) (rw (high, if◌then◌else◌) (rw (bottom, if◌then◌else◌) refl)),
              (stored, tt),
            )
            | inr up ↦
                let less : rank b.envelope.parent_hash < rank h =
                  subst (λ j. rank b.envelope.parent_hash < rank j) here (rank_lem b.envelope) in
                let (bs, f, k) = collect_total fuel s b.envelope.parent_hash from v (
                  omega (
                    arith,
                    keys_below_step h (rank b.envelope.parent_hash) s.block_store b e less,
                  )) in
                (
                  b ∷ bs,
                  rw (collect_down, e)
                      (rw (high, if◌then◌else◌) (rw (up, if◌then◌else◌) (rw (f, ◌>>=◌) refl))),
                  (stored, k),
                )
          ]
        ]
  ]

  -- On a linked state `walk_range` stops, and yields stored blocks only, each above the first height
  -- and at most as high as the second one.
  pub walk_range_lem :
      (s : MultiAuthorDataChainState Tx) (tip from to : ℕ)
      → IsLinked hashing s
      → (bs : List (DataBlock Tx)) × (walk_range s tip from to ≡ some bs)
        × All (λ b. (from < b.envelope.height) × (b.envelope.height ≤ to) × IsStoredIn s b) bs
  unfolding walk_range
  walk_range_lem s tip from to v = elim (Bool-cases (leb to from)) [
    | inl e ↦ ([], rw (e, if◌then◌else◌) refl, tt)
    | inr e ↦
        let (bs, f, k) =
          collect_total (suc (length s.block_store)) s tip from v
            (omega (arith, keys_below-length (rank tip) s.block_store)) in
        (
          retain_range from to (reversed bs),
          rw (e, if◌then◌else◌) (rw (f, ◌>>=◌) refl),
          All-retain_range (IsStoredIn s) from to (reversed bs) (All-reversed (IsStoredIn s) bs k),
        )
  ]
