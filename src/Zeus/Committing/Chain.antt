-- ===== src/Zeus/Committing/Chain.antt =====
-- consensus/src/server/zeus/phases/commit.rs: what is handed to the committer is one chain of blocks.
use leto_rs.Prelude.{
  ℕ, ◌<◌, ◌≡◌, refl, sym, ap, ◌∙◌, inl, inr, false, some, List, [], ◌∷◌, ◌++◌, map, nat_eq, nat_beq,
  nat_beq_iff, lookup, set_contains, All, Bool-cases, Option-cases, arith,
}
use leto_rs.Types.Quorum.{IsDistinct}
use leto_rs.Zeus.Types.{DataBlockEnvelope}
use leto_rs.Zeus.Store.{Codec, cache_get}
use leto_rs.Zeus.Store.Hashes.{IsHashed, cache_get-IsHashed}
use leto_rs.Zeus.Committing.{CommitItem, resident, spilled, ZeusState, item_of}
use leto_rs.Zeus.Committing.Walks.{
  IsWalk, blocked, reached, further, next_child-child_of, append_assoc, append_nil,
}

-- Each hash is that of an envelope whose parent is the one before; the first parent and the last hash
-- are given.
pub data IsChain {Tx : Type 0} (hash : DataBlockEnvelope Tx → ℕ) : ℕ → List ℕ → ℕ → Type 0 where
  end : (h : ℕ) → IsChain hash h [] h
  next :
      (p h : ℕ) (e : DataBlockEnvelope Tx) (hs : List ℕ) (last : ℕ)
      → hash e ≡ h
      → e.parent_hash ≡ p
      → IsChain hash h hs last
      → IsChain hash p (h ∷ hs) last

module _ {Tx : Type 0} (hash : DataBlockEnvelope Tx → ℕ) where
  pub IsChain-append :
      (p q r : ℕ) (hs ks : List ℕ)
      → IsChain hash p hs q
      → IsChain hash q ks r
      → IsChain hash p (hs ++ ks) r
  IsChain-append p q r hs ks (end _) d = d
  IsChain-append p q r hs ks (next _ h e gs _ a b c) d =
      next p h e (gs ++ ks) r a b (IsChain-append h q r gs ks c d)

  module _ (rank : ℕ → ℕ)
      (rank_lem : (e : DataBlockEnvelope Tx) → rank e.parent_hash < rank (hash e)) where
    pub link_climbs :
        (p h : ℕ) (e : DataBlockEnvelope Tx) → hash e ≡ h → e.parent_hash ≡ p → rank p < rank h
    link_climbs p h e a b = rw⁻¹ a (rw⁻¹ b (rank_lem e))

    above_distinct :
        (h : ℕ) (hs : List ℕ) → All (λ k. rank h < rank k) hs → set_contains h hs ≡ false
    unfolding set_contains
    above_distinct h [] a = refl
    above_distinct h (k ∷ ks) a = elim (Bool-cases (nat_beq k h)) [
      | inl same ↦
          let q : rank k ≡ rank h = ap rank ((nat_beq_iff k h).0 same) in ground (arith, q, a.0)
      | inr other ↦ ground (arith, other, above_distinct h ks a.1)
    ]

    All-weaken :
        (p h : ℕ) (hs : List ℕ)
        → rank p < rank h
        → All (λ k. rank h < rank k) hs
        → All (λ k. rank p < rank k) hs
    All-weaken p h [] l a = tt
    All-weaken p h (k ∷ ks) l a = (omega (arith, l, a.0), All-weaken p h ks l a.1)

    chain_climbs :
        (p last : ℕ) (hs : List ℕ) → IsChain hash p hs last → All (λ k. rank p < rank k) hs
    chain_climbs p last hs (end _) = tt
    chain_climbs p last hs (next _ h e gs _ a b c) =
        let l = link_climbs p h e a b in (l, All-weaken p h gs l (chain_climbs h last gs c))

    pub chain-IsDistinct : (p last : ℕ) (hs : List ℕ) → IsChain hash p hs last → IsDistinct (p ∷ hs)
    chain-IsDistinct p last hs (end _) = (above_distinct p [] tt, tt)
    chain-IsDistinct p last hs (next _ h e gs _ a b c) =
        let l = link_climbs p h e a b in
        (
          above_distinct p hs (l, All-weaken p h gs l (chain_climbs h last gs c)),
          chain-IsDistinct h last gs c,
        )

module _ {Tx : Type 0} (codec : Codec Tx) where
  open codec use {hash}

  abbrev pub hash_of : CommitItem Tx → ℕ
  hash_of (resident b) = hash b.envelope
  hash_of (spilled h) = h

  -- The hashes of all blocks that were handed over.
  abbrev pub log_of : List (List (CommitItem Tx)) → List ℕ
  log_of [] = []
  log_of (xs ∷ xss) = map hash_of xs ++ log_of xss

  -- A child link is that of an envelope.
  abbrev pub IsHonest : ZeusState Tx → Type 0
  IsHonest s =
      (p c : ℕ)
      → lookup p s.child_of ≡ some c
      → (e : DataBlockEnvelope Tx) × (hash e ≡ c) × (e.parent_hash ≡ p)

  hash-item_of :
      (s : ZeusState Tx) (c : ℕ) → IsHashed codec s.data_block_db → hash_of (item_of codec s c) ≡ c
  unfolding item_of
  hash-item_of s c v = elim (Option-cases (cache_get codec s.data_block_db c)) [
    | inl e ↦ rw (hash_of, e) refl
    | inr (b, e) ↦ rw (hash_of, e) (cache_get-IsHashed codec s.data_block_db c b v e)
  ]

  pub hashes-items :
      (s : ZeusState Tx) (hs : List ℕ)
      → IsHashed codec s.data_block_db
      → map hash_of (map (item_of codec s) hs) ≡ hs
  hashes-items s [] v = refl
  hashes-items s (h ∷ hs) v = rw (hash-item_of s h v) (ap (λ l. h ∷ l) (hashes-items s hs v))

  pub walk_chain :
      (s : ZeusState Tx) (new_height cur high : ℕ) (hs : List ℕ) (last top : ℕ)
      → IsHonest s
      → IsWalk codec s new_height cur high hs last top
      → IsChain hash cur hs last
  walk_chain s n cur high hs last top v (blocked _ _ x) = end cur
  walk_chain s n cur high hs last top v (reached _ _ c m x l) =
      let (e, a, b) = v cur c (next_child-child_of codec s cur c m x) in
      next cur c e [] c a b (end c)
  walk_chain s n cur high hs last top v (further _ _ c m gs _ _ x l w) =
      let (e, a, b) = v cur c (next_child-child_of codec s cur c m x) in
      next cur c e gs last a b (walk_chain s n c m.height gs last top v w)

  pub log_of-snoc :
      (xss : List (List (CommitItem Tx))) (xs : List (CommitItem Tx))
      → log_of (xss ++ xs ∷ []) ≡ log_of xss ++ map hash_of xs
  log_of-snoc [] xs = append_nil (map hash_of xs)
  log_of-snoc (ys ∷ yss) xs =
      ap (λ l. map hash_of ys ++ l) (log_of-snoc yss xs)
      ∙ sym (append_assoc (map hash_of ys) (log_of yss) (map hash_of xs))
