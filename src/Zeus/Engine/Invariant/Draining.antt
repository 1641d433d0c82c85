-- ===== src/Zeus/Engine/Invariant/Draining.antt =====
-- consensus/src/server/zeus/phases/data.rs: the loop over the parked blocks ends.
use leto_rs.Prelude.{ℕ, zero, suc, ◌+◌, ◌≤◌, ◌<◌, List, [], ◌∷◌, nat_eq, length, arith}
use leto_rs.Prelude.Entries.{All-remove}
use leto_rs.Prelude.Results.{Handled, ok, ◌>>=◌, Leaves, Leaves-bind, Leaves-seq, Leaves-map}
use leto_rs.Leto.RoundContext.{queue_at}
use leto_rs.Zeus.Types.{DataBlock, DataBlockEnvelope}
use leto_rs.Zeus.Engine.{Platform, Server}
use leto_rs.Zeus.Engine.Admission.{
  parked_count, admit_with, admit_all, take_parked, drain, admit_data_block,
}
use leto_rs.Zeus.Engine.Invariant.Admission
use leto_rs.Zeus.Engine.Invariant.{Config, IsParked, Holds}
use leto_rs.Zeus.Engine.Invariant.Parking.{remove-count, queue_at-IsParked}

module _ {Tx H T R S PublicKey : Type 0} (platform : Platform Tx H T R S PublicKey) (rank : ℕ → ℕ)
    (config : Config PublicKey)
    (rank_lem : (e : DataBlockEnvelope Tx)
      → rank e.parent_hash < rank (platform.hash_envelope e)) where
  abbrev Kept : ℕ → Server platform → Type 0
  Kept = Admission.Kept platform rank config rank_lem

  abbrev IsTotal : ℕ → (Server platform → Handled (Server platform) (Server platform)) → Type 0
  IsTotal = Admission.IsTotal platform rank config rank_lem

  take_parked-Holds :
      (s : Server platform) (h : ℕ)
      → Holds platform rank config s
      → Holds platform rank config (take_parked platform s h)
  unfolding take_parked
  take_parked-Holds s h v = record {
    ranked = v.ranked;
    climbing = v.climbing;
    waiting = All-remove IsParked h s.pending_data_blocks v.waiting;
    changes = v.changes;
    reached = v.reached;
    history = v.history;
    configured = v.configured;
  }

  -- A pass of the loop over the blocks that are parked under the head.
  pass :
      (fuel : ℕ)
      → IsTotal fuel (drain platform fuel)
      → (s : Server platform) (n : ℕ) (bs : List (DataBlock Tx)) → Holds platform rank config s
      → length bs + parked_count s.pending_data_blocks ≤ n
      → n ≤ fuel
      → IsParked (s.data_plane.head_hash, bs)
      → Leaves (Kept n) (elim bs [
        | [] ↦ ok s
        | b ∷ cs ↦ (admit_all platform (drain platform fuel) s (b ∷ cs)) >>= drain platform fuel
      ])
  unfolding admit_all
  pass fuel total s n [] v c l a = (v, omega (arith, c))
  pass fuel total s (suc n) (b ∷ bs) v c l a =
      let k = parked_count s.pending_data_blocks in
      let d = drain platform fuel in
      let first : Leaves (Kept k) (admit_with platform d s b) =
        Admission.admit_at_head platform rank config rank_lem fuel d total s b k (v, omega arith)
          (omega (arith, c, l)) a.0 in
      let rest : Leaves (Kept n) (admit_all platform d s (b ∷ bs)) =
        Leaves-bind (Kept k) (Kept n) (admit_with platform d s b) (λ t. admit_all platform d t bs)
          first (λ t (w, j). (w, omega (arith, j, c)))
          (λ t j.
            Admission.admit_all-Keeps platform rank config rank_lem fuel d total t bs k n j
              (omega (arith, c)) (omega (arith, l))) in
      Admission.Kept_more platform rank config rank_lem n (suc n) _ (omega arith) (
        Leaves-seq (Kept n) (admit_all platform d s (b ∷ bs)) d rest
          (λ t j. total t n j (omega (arith, l))))
  pass fuel total s zero (b ∷ bs) v c l a = (let z : 1 ≤ 0 = omega (arith, c) in elim z [ ])

  -- With more fuel than parked blocks, the loop does not use it up.
  pub drain-IsTotal : (fuel : ℕ) → IsTotal fuel (drain platform fuel)
  unfolding drain take_parked
  drain-IsTotal zero s n k l = elim l [ ]
  drain-IsTotal (suc fuel) s n (v, c) l =
      let h = s.data_plane.head_hash in
      pass fuel (drain-IsTotal fuel) (take_parked platform s h) n (queue_at h s.pending_data_blocks)
        (take_parked-Holds s h v) (omega (arith, c, remove-count h s.pending_data_blocks))
        (omega (arith, l)) (queue_at-IsParked h s.pending_data_blocks v.waiting)

  pub admit_data_block-Keeps :
      (s : Server platform) (b : DataBlock Tx)
      → Holds platform rank config s
      → Leaves (Holds platform rank config) (admit_data_block platform s b)
  unfolding admit_data_block
  admit_data_block-Keeps s b v =
      let n = parked_count s.pending_data_blocks in
      Leaves-map (Kept (suc n)) (Holds platform rank config) (λ t k. k.0)
        (admit_data_block platform s b)
        (Admission.admit_with-Keeps platform rank config rank_lem (suc n) (drain platform (suc n))
          (drain-IsTotal (suc n)) s b n (v, omega arith) (omega arith))
