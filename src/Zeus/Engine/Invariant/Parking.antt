-- ===== src/Zeus/Engine/Invariant/Parking.antt =====
-- consensus/src/server/zeus/phases/data.rs: the blocks that are parked, and how many they are.
use leto_rs.Prelude.{
  ℕ, suc, ◌+◌, ◌≤◌, ◌≡◌, refl, inl, inr, List, [], ◌∷◌, ◌++◌, nat_eq, nat_beq, if◌then◌else◌, Map,
  lookup, insert, remove, length, length-append, All, All-append, Option-cases, Bool-cases, arith,
}
use leto_rs.Prelude.Entries.{All-insert, All-lookup}
use leto_rs.Leto.RoundContext.{queue_at, push}
use leto_rs.Zeus.Types.{DataBlock}
use leto_rs.Zeus.Engine.Admission.{parked_count}
use leto_rs.Zeus.Engine.Invariant.{IsParked}

module _ {Tx : Type 0} where
  -- What is taken out is not parked any more.
  pub remove-count :
      (h : ℕ) (m : Map ℕ (List (DataBlock Tx)))
      → length (queue_at h m) + parked_count (remove h m) ≤ parked_count m
  unfolding parked_count remove lookup
  remove-count h [] = omega arith
  remove-count h ((j, bs) ∷ m) = elim (Bool-cases (nat_beq j h)) [
    | inl e ↦ rw (e, if◌then◌else◌) (omega (arith, remove-count h m))
    | inr e ↦ rw (e, if◌then◌else◌) (omega (arith, remove-count h m))
  ]

  insert-count :
      (h : ℕ) (bs : List (DataBlock Tx)) (m : Map ℕ (List (DataBlock Tx)))
      → parked_count (insert h bs m) + length (queue_at h m) ≡ length bs + parked_count m
  unfolding parked_count insert lookup
  insert-count h bs [] = omega arith
  insert-count h bs ((j, cs) ∷ m) = elim (Bool-cases (nat_beq j h)) [
    | inl e ↦ rw (e, if◌then◌else◌) (omega arith)
    | inr e ↦ rw (e, if◌then◌else◌) (omega (arith, insert-count h bs m))
  ]

  pub push-count :
      (h : ℕ) (b : DataBlock Tx) (m : Map ℕ (List (DataBlock Tx)))
      → parked_count (push h b m) ≡ suc (parked_count m)
  unfolding push
  push-count h b m =
      omega
        (arith, insert-count h (queue_at h m ++ b ∷ []) m, length-append (queue_at h m) (b ∷ []))

  pub queue_at-IsParked :
      (h : ℕ) (m : Map ℕ (List (DataBlock Tx))) → All IsParked m → IsParked (h, queue_at h m)
  queue_at-IsParked h m a = elim (Option-cases (lookup h m)) [
    | inl e ↦ rw e tt
    | inr (bs, e) ↦ rw e (All-lookup IsParked h bs m e a)
  ]

  pub push-IsParked :
      (b : DataBlock Tx) (m : Map ℕ (List (DataBlock Tx)))
      → All IsParked m
      → All IsParked (push b.envelope.parent_hash b m)
  unfolding push
  push-IsParked b m a =
      let h = b.envelope.parent_hash in
      All-insert IsParked h (queue_at h m ++ b ∷ []) m
        (All-append (λ c. c.envelope.parent_hash ≡ h) (queue_at h m) (b ∷ [])
          (queue_at-IsParked h m a) (refl, tt))
        a
