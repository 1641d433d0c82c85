-- ===== src/Tests/Store.antt =====
-- consensus/src/server/zeus/chain_state/db.rs: a cache with room for one block.
use leto_rs.Prelude.{
  ℕ, ◌+◌, ◌*◌, ◌≡◌, refl, false, some, [], ◌∷◌, nat_eq, nat_beq, lookup, insert, remove,
  set_contains, arith, wrapping_add,
}
use leto_rs.Zeus.Types.{DataBlock}
use leto_rs.Zeus.Store.{
  DataBlockDb, Codec, insert_block, cache_put, evict, cache_insert, evict_block, spill,
}
use leto_rs.Zeus.Store.Eviction.{IsKept}
use leto_rs.Zeus.Store.Insertion.{IsStored, booked, insert_block-IsKept}
use leto_rs.Tests.Zeus.{signed_block}

abbrev codec : Codec ℕ
codec = record {
  hash = λ e. e.epoch * 10 + e.height;
  empty_hash = 99;
  serialize = λ b. some (b.envelope.epoch ∷ []);
}

abbrev fresh : DataBlockDb ℕ
fresh = record {
  write_tx = [];
  emitted_high = 0;
  meta = [];
  cache = [];
  order = [];
  resident_bytes = 0;
  cap_bytes = 100;
  genesis = signed_block 0;
  genesis_hash = 3;
}

fresh-IsStored : IsStored fresh
unfolding lookup set_contains
fresh-IsStored = record { keys = λ i. refl; distinct = tt; bytes = refl; known = λ i k. cc }

-- The second block pushes the first one out to the writer.
second_spills :
    (insert_block codec (insert_block codec fresh (signed_block 1)) (signed_block 2)).write_tx
    ≡ (13, 1 ∷ []) ∷ []
unfolding insert_block cache_put evict cache_insert evict_block spill lookup insert remove
    wrapping_add
second_spills = refl

insert_block-IsKept_example :
    IsKept codec 13
      (signed_block 1)
      (booked codec (signed_block 1))
      (insert_block codec fresh (signed_block 1))
    × ((i : ℕ) (c : DataBlock ℕ) (n : ℕ)
        → nat_beq 13 i ≡ false
        → IsKept codec i c n fresh
        → IsKept codec i c n (insert_block codec fresh (signed_block 1)))
insert_block-IsKept_example =
    insert_block-IsKept codec fresh (signed_block 1) (λ x. (x.envelope.epoch ∷ [], refl))
      fresh-IsStored (omega arith)
