-- ===== src/ChainDb/Growth.antt =====
-- consensus/src/server/chain_db.rs: the storage only grows, since its keys are the hashes of its
-- values.
use leto_rs.Prelude.{
  ℕ, ◌≡◌, refl, sym, ap, ◌∙◌, inl, inr, Option, none, some, List, nat_beq, nat_beq_iff, Bool-cases,
  eq_of_some, arith,
}
use mathlib.Core.Path.{subst}
use leto_rs.ChainDb.{
  Storage, Bincode, found, ser_and_hash, read_bytes, read, write, write_serialized,
}
use leto_rs.ChainDb.Contents.{IsCollisionFree}

module _ {S : Type 0} (storage : Storage S) (do_hash : List ℕ → ℕ) where
  open storage use {store_read, store_write}

  -- Under its key the storage holds bytes of that hash, or none.
  abbrev pub IsAddressed : S → Type 0
  IsAddressed s = (k : ℕ) (v : List ℕ) → store_read s k ≡ some v → do_hash v ≡ k

  -- What the first storage holds, the second one holds.
  abbrev pub Grows : S → S → Type 0
  Grows s t = (k : ℕ) (v : List ℕ) → store_read s k ≡ some v → store_read t k ≡ some v

  pub write_serialized-Grows :
      (s : S) (u : List ℕ)
      → IsCollisionFree storage do_hash
      → IsAddressed s
      → Grows s (write_serialized storage do_hash s (do_hash u) u)
        × IsAddressed (write_serialized storage do_hash s (do_hash u) u)
  unfolding write_serialized
  write_serialized-Grows s u c a = (grows, addressed)
    where
      grows : Grows s (store_write s (do_hash u) u)
      grows k v h = elim (Bool-cases (nat_beq (do_hash u) k)) [
        | inl e ↦
            let same = (nat_beq_iff (do_hash u) k).0 e in
            let eq : u ≡ v = c u v (same ∙ sym (a k v h)) in
            subst (λ i. store_read (store_write s (do_hash u) u) i ≡ some v) same
              (storage.read-write s (do_hash u) u ∙ ap some eq)
        | inr e ↦ storage.read-write_other s (do_hash u) k u (λ same. ground arith) ∙ h
      ]

      addressed : IsAddressed (store_write s (do_hash u) u)
      addressed k v h = elim (Bool-cases (nat_beq (do_hash u) k)) [
        | inl e ↦
            let same = (nat_beq_iff (do_hash u) k).0 e in
            let eq : u ≡ v = eq_of_some u v (
              sym (storage.read-write s (do_hash u) u)
              ∙ subst (λ i. store_read (store_write s (do_hash u) u) i ≡ some v) (sym same) h) in
            ap do_hash (sym eq) ∙ same
        | inr e ↦
            a k v (sym (storage.read-write_other s (do_hash u) k u (λ same. ground arith)) ∙ h)
      ]

  module _ {A : Type 0} (bincode : Bincode A) where
    -- Every further write leaves what is there, and the new value, where they are.
    pub write-Grows :
        (s : S) (a : A)
        → IsCollisionFree storage do_hash
        → IsAddressed s
        → Grows s (write storage do_hash bincode s a)
          × IsAddressed (write storage do_hash bincode s a)
    unfolding write ser_and_hash write_serialized
    write-Grows s a c h = write_serialized-Grows s (bincode.serialize a) c h

    pub read-Grows :
        (s t : S) (k : ℕ) (a : A)
        → Grows s t
        → read storage do_hash bincode s k ≡ found a
        → read storage do_hash bincode t k ≡ found a
    unfolding read read_bytes
    read-Grows s t k a g h = go (store_read s k) refl
      where
        go : (o : Option (List ℕ)) → store_read s k ≡ o → read storage do_hash bincode t k ≡ found a
        go none e = cc (rw (read, read_bytes, e) at h)
        go (some v) e = rw (read, g k v e) (rw (read, e) at h)
