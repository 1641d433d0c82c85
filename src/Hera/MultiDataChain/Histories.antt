-- ===== src/Hera/MultiDataChain/Histories.antt =====
-- consensus/src/server/hera/chain_state/multi_data_chain.rs: admissions one after the other, from the
-- start.
use leto_rs.Prelude.{
  ◌>>=◌, ℕ, ◌≡◌, refl, ◌⊎◌, inl, inr, true, Option, some, List, [], ◌∷◌, nat_eq, nat_beq,
  nat_beq_iff, Map, lookup, insert, contains_key, lookup-insert, Bool-cases, arith,
}
use leto_rs.Zeus.Types.{DataBlock}
use leto_rs.Hera.MultiDataChain.{
  MultiAuthorDataChainState, Hashing, genesis_hash, admit_typed, new, start_heights,
}
use leto_rs.Hera.MultiDataChain.Links.{IsLinked}
use leto_rs.Hera.MultiDataChain.Admission.{admit_typed_lem}

-- Every author starts with a height, and with the same value.
start_values :
    (ids : List ℕ) (v : ℕ) (m : Map ℕ ℕ) (a h : ℕ)
    → lookup a (start_heights ids v m) ≡ some h
    → (h ≡ v) ⊎ (lookup a m ≡ some h)
unfolding start_heights
start_values [] v m a h e = inr e
start_values (i ∷ ids) v m a h e = elim (start_values ids v (insert i v m) a h e) [
  | inl f ↦ inl f
  | inr f ↦ elim (Bool-cases (nat_beq i a)) [
    | inl same ↦ inl (ground (arith, f, same, lookup-insert a i v m))
    | inr other ↦ inr (ground (arith, f, other, lookup-insert a i v m))
  ]
]

same_keys :
    (ids : List ℕ) (v w : ℕ) (m n : Map ℕ ℕ) (a : ℕ)
    → contains_key a m ≡ contains_key a n
    → contains_key a (start_heights ids v m) ≡ contains_key a (start_heights ids w n)
unfolding start_heights
same_keys [] v w m n a e = e
same_keys (i ∷ ids) v w m n a e =
    same_keys ids v w (insert i v m) (insert i w n) a
      (ground (arith, e, lookup-insert a i v m, lookup-insert a i w n))

module _ {Tx : Type 0} (hashing : Hashing Tx) where
  open hashing use {hash, empty_hash}

  start_tips :
      (ids : List ℕ) (a h : ℕ)
      → lookup a (start_heights ids (genesis_hash hashing) []) ≡ some h
      → (h ≡ genesis_hash hashing) × (contains_key a (start_heights ids 0 []) ≡ true)
  unfolding lookup
  start_tips ids a h e = (
    elim (start_values ids (genesis_hash hashing) [] a h e) [ inl f ↦ f | inr f ↦ cc ],
    ground (arith, e, same_keys ids (genesis_hash hashing) 0 [] [] a refl),
  )

  new-IsLinked :
      (ids : List ℕ)
      → IsLinked hashing (new hashing ids)
        × (contains_key (genesis_hash hashing) (new hashing ids).block_store ≡ true)
  unfolding new lookup genesis_hash
  new-IsLinked ids =
      let g = genesis_hash hashing in
      (
        record {
          hashed = λ h b e. ground (arith, e, nat_beq_iff g h);
          parents = λ h b e. inl (ground (arith, e, nat_beq_iff g h));
          above = λ p c e. cc;
          tips =
              λ a h e. let (f, k) = start_tips ids a h e in (ground (arith, f, nat_beq_iff g h), k);
          waiting = λ p. tt;
        },
        ground (arith, nat_beq_iff g g),
      )

  -- The admissions of a list of blocks, whatever their results.
  abbrev pub admit_all :
      List (DataBlock Tx) → MultiAuthorDataChainState Tx → Option (MultiAuthorDataChainState Tx)
  admit_all [] s = some s
  admit_all (b ∷ bs) s = do (r, t) ← admit_typed hashing s b; admit_all bs t

  admit_all_from :
      (bs : List (DataBlock Tx)) (s : MultiAuthorDataChainState Tx)
      → IsLinked hashing s
      → contains_key (genesis_hash hashing) s.block_store ≡ true
      → (t : MultiAuthorDataChainState Tx) × (admit_all bs s ≡ some t)
        × IsLinked hashing t
        × (contains_key (genesis_hash hashing) t.block_store ≡ true)
  admit_all_from [] s v z = (s, refl, v, z)
  admit_all_from (b ∷ bs) s v z =
      let (r, t, e, w, g, o) = admit_typed_lem hashing s b v z in
      let (u, f, x, y) = admit_all_from bs t w (g.kept (genesis_hash hashing) z) in
      (u, rw (e, ◌>>=◌) f, x, y)

  -- From the start, admissions of any blocks in any order neither panic nor run forever, and lead
  -- to a linked state: every stored block save the genesis block stands on a stored parent, and
  -- heads are stored.
  pub admit_all-IsLinked :
      (ids : List ℕ) (bs : List (DataBlock Tx))
      → (t : MultiAuthorDataChainState Tx) × (admit_all bs (new hashing ids) ≡ some t)
        × IsLinked hashing t
  admit_all-IsLinked ids bs =
      let (v, z) = new-IsLinked ids in
      let (t, e, w, _) = admit_all_from bs (new hashing ids) v z in (t, e, w)
