-- ===== src/Tests/Hera.antt =====
-- consensus/src/server/hera/chain_state/multi_data_chain.rs: two authors and a few blocks.
use leto_rs.Prelude.{
  ◌>>=◌, ℕ, ◌+◌, ◌≡◌, refl, inl, true, Option, some, [], ◌∷◌, nat_eq, lookup, insert, remove,
  contains_key, arith,
}
use leto_rs.Zeus.Types.{DataBlock, genesis_block}
use leto_rs.Hera.MultiDataChain.{
  MultiAuthorDataChainState, Hashing, AdmitTypedResult, genesis_hash, admit_typed, new, link,
  set_head, next_of, advance_head, advance_head_via_child_of, drain_block, drain_blocks,
  take_parked, drain, drain_pending_for_author, extend, bridge_over,
}
use leto_rs.Leto.RoundContext.{push}
use leto_rs.Hera.MultiDataChain.Links.{IsLinked, Grows}
use leto_rs.Hera.MultiDataChain.Cases.{Outcome}
use leto_rs.Hera.MultiDataChain.Admission.{admit_typed_lem}
use leto_rs.Hera.MultiDataChain.Histories.{admit_all, admit_all-IsLinked}

abbrev hashing : Hashing ℕ
hashing = record {
  hash = λ e. e.parent_hash + e.height + 1;
  empty_hash = 0;
  rank = λ h. h;
  rank_lem = λ e. omega arith;
}

-- A block by the author, at the height, on the parent; the genesis block has hash 1.
abbrev block : ℕ → ℕ → ℕ → DataBlock ℕ
block author height parent = record {
  envelope = record { epoch = 1; height = height; payload = []; parent_hash = parent };
  sig = record { raw = []; signer = author };
}

admit_all-IsLinked_example :
    (t : MultiAuthorDataChainState ℕ) × (admit_all hashing
        (block 1 1 1 ∷ block 1 2 3 ∷ [])
        (new hashing (1 ∷ 2 ∷ []))
      ≡ some t)
    × IsLinked hashing t
admit_all-IsLinked_example =
    admit_all-IsLinked hashing (1 ∷ 2 ∷ []) (block 1 1 1 ∷ block 1 2 3 ∷ [])

abbrev start : MultiAuthorDataChainState ℕ
start = record {
  heads = (1, 1) ∷ (2, 1) ∷ [];
  heights = (1, 0) ∷ (2, 0) ∷ [];
  committed_heights = (1, 0) ∷ (2, 0) ∷ [];
  child_of = [];
  pending_data_blocks = [];
  block_store = (1, block 0 0 0) ∷ [];
}

start-IsLinked : IsLinked hashing start
unfolding lookup genesis_hash genesis_block
start-IsLinked = record {
  hashed = λ h b e. ground (arith, e);
  parents = λ h b e. inl (ground (arith, e));
  above = λ p c e. cc;
  tips = λ a h e. (ground (arith, e), ground (arith, e));
  waiting = λ p. tt;
}

genesis_stored : contains_key (genesis_hash hashing) start.block_store ≡ true
unfolding lookup genesis_hash genesis_block
genesis_stored = refl

admit_typed_lem_example :
    (r : AdmitTypedResult) × (t : MultiAuthorDataChainState ℕ) × (admit_typed hashing start
        (block 1 2 3)
      ≡ some (r, t))
    × IsLinked hashing t
    × Grows hashing 1 start t
    × Outcome hashing r (block 1 2 3) start t
admit_typed_lem_example = admit_typed_lem hashing start (block 1 2 3) start-IsLinked genesis_stored

calls : Unit {0}
unfolding admit_typed extend bridge_over link set_head next_of advance_head
    advance_head_via_child_of drain_block drain_blocks take_parked drain drain_pending_for_author
    genesis_hash genesis_block lookup insert remove
calls = tt

abbrev head_of : ℕ → Option (MultiAuthorDataChainState ℕ) → Option ℕ
head_of author o = do s ← o; lookup author s.heads

-- A block that waits for its parent is taken when the parent comes.
late_parent : head_of 1 (admit_all hashing (block 1 2 3 ∷ block 1 1 1 ∷ []) start) ≡ some 6
unfolding calls push
late_parent = refl

-- Author 2 builds on the block of author 1: the head of author 2 walks over it.
across_authors : head_of 2 (admit_all hashing (block 1 1 1 ∷ block 2 2 3 ∷ []) start) ≡ some 6
unfolding calls push
across_authors = refl
