-- ===== src/Zeus/Engine/Invariant/Epochs.antt =====
-- consensus/src/server/zeus/phases/blame.rs: an epoch ends with a certificate.
use leto_rs.Prelude.{
  ℕ, ◌≡◌, refl, inl, inr, true, some, List, [], ◌∷◌, nat_eq, nat_beq, nat_beq_iff, leb,
  if◌then◌else◌, Map, contains_key, lookup-insert, wrapping_add, All, Bool-cases, eq_of_some, arith,
}
use mathlib.Core.Path.{subst}
use leto_rs.Zeus.Types.{DataBlock, EleaderChangeQc}
use leto_rs.Zeus.DataChain.{DataBlockMeta, eleader, eleader_change_qc_valid}
use leto_rs.Zeus.Admitting.{timer_data_round_entry}
use leto_rs.Zeus.Engine.{Platform, Server, crypto, arm_data_timer}
use leto_rs.Zeus.Engine.Changing.{
  keep_low, is_low, purge_blocks, d_star, truncate, start_batcher, advance_to_epoch, leave_epoch,
  admit_change_qc,
}
use leto_rs.Zeus.Engine.Invariant.{Config, core, IsParked, IsValidChange, Holds, Holds-core}

module _ {Tx : Type 0} where
  keep_low-All :
      (P : DataBlock Tx → Type 0) (height : ℕ) (bs : List (DataBlock Tx))
      → All P bs
      → All P (keep_low height bs)
  unfolding keep_low
  keep_low-All P height [] a = tt
  keep_low-All P height (b ∷ bs) a = elim (Bool-cases (leb b.envelope.height height)) [
    | inl e ↦ rw (e, if◌then◌else◌) (a.0, keep_low-All P height bs a.1)
    | inr e ↦ rw (e, if◌then◌else◌) (keep_low-All P height bs a.1)
  ]

  kept-IsParked :
      (meta : Map ℕ DataBlockMeta) (height h : ℕ) (bs : List (DataBlock Tx))
      (rest : Map ℕ (List (DataBlock Tx)))
      → IsParked (h, bs)
      → All IsParked rest
      → All IsParked (elim bs [
        | [] ↦ rest
        | c ∷ cs ↦ if is_low meta height h then (h, c ∷ cs) ∷ rest else rest
      ])
  kept-IsParked meta height h [] rest p a = a
  kept-IsParked meta height h (c ∷ cs) rest p a = elim (Bool-cases (is_low meta height h)) [
    | inl e ↦ rw (e, if◌then◌else◌) (p, a)
    | inr e ↦ rw (e, if◌then◌else◌) a
  ]

  purge_blocks-IsParked :
      (meta : Map ℕ DataBlockMeta) (height : ℕ) (pending : Map ℕ (List (DataBlock Tx)))
      → All IsParked pending
      → All IsParked (purge_blocks meta height pending)
  unfolding purge_blocks
  purge_blocks-IsParked meta height [] a = tt
  purge_blocks-IsParked meta height ((h, bs) ∷ pending) a =
      kept-IsParked meta height h (keep_low height bs) (purge_blocks meta height pending)
        (keep_low-All (λ b. b.envelope.parent_hash ≡ h) height bs a.0)
        (purge_blocks-IsParked meta height pending a.1)

module _ {Tx H T R S PublicKey : Type 0} (platform : Platform Tx H T R S PublicKey) (rank : ℕ → ℕ)
    (config : Config PublicKey) where
  start_batcher-core :
      (s : Server platform) → core platform (start_batcher platform s) ≡ core platform s
  unfolding start_batcher
  start_batcher-core s =
      elim (Bool-cases
        (nat_beq s.data_plane.my_id (eleader s.data_plane.current_epoch s.data_plane.num_nodes))) [
          | inl e ↦ simp (e, if◌then◌else◌)
          | inr e ↦ simp (e, if◌then◌else◌)
        ]

  truncate-Holds :
      (s : Server platform) (epoch hash height : ℕ)
      → Holds platform rank config s
      → contains_key epoch s.admitted_change_qcs ≡ true
      → Holds platform rank config (truncate platform s (wrapping_add epoch 1) hash height)
  unfolding truncate
  truncate-Holds s epoch hash height v k = record {
    ranked = v.ranked;
    climbing = v.climbing;
    waiting =
        purge_blocks-IsParked s.data_plane.zeus.data_block_db.meta height s.pending_data_blocks
          v.waiting;
    changes = v.changes;
    reached = (epoch, k, refl);
    history = v.history;
    configured = v.configured;
  }

  pub leave_epoch-Holds :
      (s : Server platform) (epoch : ℕ)
      → Holds platform rank config s
      → contains_key epoch s.admitted_change_qcs ≡ true
      → Holds platform rank config (leave_epoch platform s epoch)
  unfolding leave_epoch advance_to_epoch arm_data_timer
  leave_epoch-Holds s epoch v k = elim (Bool-cases (leb s.data_plane.current_epoch epoch)) [
    | inl e ↦
        let (hash, height) = d_star platform s in
        let t = truncate platform s (wrapping_add epoch 1) hash height in
        rw (e, if◌then◌else◌)
          (Holds-core platform rank config (arm_data_timer platform t timer_data_round_entry)
            (start_batcher platform (arm_data_timer platform t timer_data_round_entry))
            (start_batcher-core (arm_data_timer platform t timer_data_round_entry))
            (truncate-Holds s epoch hash height v k))
    | inr e ↦ rw (e, if◌then◌else◌) v
  ]

  pub admit_change_qc-Holds :
      (s : Server platform) (qc : EleaderChangeQc Tx)
      → Holds platform rank config s
      → eleader_change_qc_valid
          (crypto platform)
          qc
          s.crypto_system
          s.num_faults
          s.data_plane.num_nodes
        ≡ some true
      → Holds platform rank config (admit_change_qc platform s qc)
        × (contains_key qc.epoch (admit_change_qc platform s qc).admitted_change_qcs ≡ true)
  unfolding admit_change_qc
  admit_change_qc-Holds s qc v valid = (
    record {
      ranked = v.ranked;
      climbing = v.climbing;
      waiting = v.waiting;
      changes = λ epoch q e. elim (Bool-cases (nat_beq qc.epoch epoch)) [
        | inl same ↦
            let p : qc ≡ q =
              eq_of_some qc q
                (ground (arith, same, e, lookup-insert epoch qc.epoch qc s.admitted_change_qcs)) in
            inr (
              subst (IsValidChange platform config epoch) p (
                (nat_beq_iff qc.epoch epoch).0 same,
                subst
                    (λ c.
                      eleader_change_qc_valid (crypto platform) qc c.system c.num_faults c.num_nodes
                      ≡ some true)
                    v.configured valid,
              ))
        | inr other ↦
            v.changes epoch q
              (ground (arith, other, e, lookup-insert epoch qc.epoch qc s.admitted_change_qcs))
      ];
      reached =
          let (epoch, k, e) = v.reached in
          (epoch, ground (arith, k, lookup-insert epoch qc.epoch qc s.admitted_change_qcs), e);
      history = v.history;
      configured = v.configured;
    },
    ground (
      arith,
      lookup-insert qc.epoch qc.epoch qc s.admitted_change_qcs,
      nat_beq_iff qc.epoch qc.epoch,
    ),
  )
