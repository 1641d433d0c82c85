-- ===== src/ChainDb/Contents.antt =====
-- consensus/src/server/chain_db.rs: what was written is read, whatever is written after it.
use leto_rs.Prelude.{
  ℕ, ◌≡◌, refl, ap, ◌∙◌, inl, inr, some, List, [], ◌∷◌, nat_beq, nat_beq_iff, All, Bool-cases,
  arith,
}
use leto_rs.ChainDb.{
  Storage, Bincode, found, decoded, read_bytes, woken, read, notify_read, ser_and_hash, write,
  write_serialized,
}

module _ {S : Type 0} (storage : Storage S) (do_hash : List ℕ → ℕ) where
  open storage use {store_read, store_write}

  -- Different bytes have different hashes.
  abbrev pub IsCollisionFree : Type 0
  IsCollisionFree = (u v : List ℕ) → do_hash u ≡ do_hash v → u ≡ v

  -- The writes of serialized values, in this order.
  abbrev pub write_all : S → List (List ℕ) → S
  write_all s [] = s
  write_all s (v ∷ vs) = write_all (write_serialized storage do_hash s (do_hash v) v) vs

  -- The bytes stand under their hash.
  abbrev pub Holds : S → List ℕ → Type 0
  Holds s v = store_read s (do_hash v) ≡ some v

  pub Holds-write_serialized :
      (s : S) (u v : List ℕ)
      → (do_hash u ≡ do_hash v → u ≡ v)
      → Holds s v
      → Holds (write_serialized storage do_hash s (do_hash u) u) v
  unfolding write_serialized
  Holds-write_serialized s u v h k = elim (Bool-cases (nat_beq (do_hash u) (do_hash v))) [
    | inl e ↦
        let same = (nat_beq_iff (do_hash u) (do_hash v)).0 e in
        rw (same) (storage.read-write s (do_hash v) u ∙ ap some (h same))
    | inr e ↦ storage.read-write_other s (do_hash u) (do_hash v) u (λ same. ground arith) ∙ k
  ]

  Holds-write_all :
      (s : S) (v : List ℕ) (vs : List (List ℕ))
      → All (λ u. do_hash u ≡ do_hash v → u ≡ v) vs
      → Holds s v
      → Holds (write_all s vs) v
  Holds-write_all s v [] h k = k
  Holds-write_all s v (u ∷ vs) h k =
      Holds-write_all (write_serialized storage do_hash s (do_hash u) u) v vs h.1
        (Holds-write_serialized s u v h.0 k)

  module _ {A : Type 0} (bincode : Bincode A) where
    open bincode use {serialize}

    pub read-Holds :
        (s : S) (a : A)
        → Holds s (serialize a)
        → read storage do_hash bincode s (ser_and_hash storage do_hash bincode a) ≡ found a
    unfolding read read_bytes decoded ser_and_hash
    read-Holds s a h = rw (h, bincode.deserialize-serialize a) refl

    pub write-Holds : (s : S) (a : A) → Holds (write storage do_hash bincode s a) (serialize a)
    unfolding write ser_and_hash
    write-Holds s a = storage.read-write s (do_hash (serialize a)) (serialize a)

    notify_read-Holds :
        (s : S) (a : A)
        → Holds s (serialize a)
        → notify_read storage do_hash bincode s (ser_and_hash storage do_hash bincode a)
          ≡ some (found a)
    unfolding notify_read woken decoded ser_and_hash
    notify_read-Holds s a h = rw (h, bincode.deserialize-serialize a) refl

    -- What `write` has written, `read` and `notify_read` return under its hash, also after further
    -- writes of values whose bytes do not collide with its own.
    pub read-write_all :
        (s : S) (a : A) (vs : List (List ℕ))
        → All (λ u. do_hash u ≡ do_hash (serialize a) → u ≡ serialize a) vs
        → (read storage do_hash bincode
              (write_all (write storage do_hash bincode s a) vs)
              (ser_and_hash storage do_hash bincode a)
            ≡ found a)
          × (notify_read storage do_hash bincode
                (write_all (write storage do_hash bincode s a) vs)
                (ser_and_hash storage do_hash bincode a)
              ≡ some (found a))
    read-write_all s a vs h =
        let k =
          Holds-write_all (write storage do_hash bincode s a) (serialize a) vs h
            (write-Holds s a) in
        (
          read-Holds (write_all (write storage do_hash bincode s a) vs) a k,
          notify_read-Holds (write_all (write storage do_hash bincode s a) vs) a k,
        )
