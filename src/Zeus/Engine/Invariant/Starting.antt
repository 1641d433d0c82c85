-- ===== src/Zeus/Engine/Invariant/Starting.antt =====
-- consensus/src/server/zeus/core.rs: the server from its start on, and who ends an epoch.
use leto_rs.Prelude.{
  ℕ, ◌<◌, ◌≤◌, ◌≡◌, refl, sym, ap, ◌∙◌, ◌⊎◌, inl, inr, true, false, some, List, [], ◌∷◌, nat_eq,
  nat_beq, nat_beq_iff, if◌then◌else◌, Map, lookup, contains_key, set_contains, wrapping_add,
  length, Occurs, Option-cases, Bool-cases, eq_of_some, arith,
}
use mathlib.Core.Path.{subst}
use leto_rs.Prelude.Results.{ok, Leaves}
use leto_rs.Zeus.Types.{DataBlockEnvelope, EleaderBlame, EleaderChangeQc, genesis_block}
use leto_rs.Leto.LeaderContext
use leto_rs.Leto.LeaderContext.{LeaderContext}
use leto_rs.Zeus.DataChain.Prefix.{IsRanked}
use leto_rs.Zeus.DataChain.{DataBlockMeta, eleader, eleader_blame_valid}
use leto_rs.Zeus.DataChain.Quorum.{honest_blamer}
use leto_rs.Zeus.Store.{with_byte_budget, meta_of}
use leto_rs.Zeus.Committing
use leto_rs.Zeus.Engine.{Platform, Server, crypto, leader}
use leto_rs.Zeus.Engine.Admission.{genesis_hash}
use leto_rs.Zeus.Engine.Start.{initial_chain, initial_data, started, begin, spawn}
use leto_rs.Zeus.Engine.Loop.{Event, run}
use leto_rs.Zeus.Engine.Invariant.{Config, Holds}
use leto_rs.Zeus.Engine.Invariant.Turns.{run-Keeps}

single-IsRanked :
    (rank : ℕ → ℕ) (h : ℕ) (m : DataBlockMeta)
    → m.hash ≡ h
    → rank m.parent_hash < rank h
    → IsRanked rank ((h, m) ∷ [])
unfolding lookup
single-IsRanked rank h m p q = record {
  hashes = λ i n e. elim (Bool-cases (nat_beq h i)) [
    | inl same ↦
        let k : m ≡ n = eq_of_some m n (ground (arith, same, e)) in
        sym (ap (λ x. x.hash) k) ∙ (p ∙ (nat_beq_iff h i).0 same)
    | inr other ↦ ground (arith, other, e)
  ];
  above = λ i n e. elim (Bool-cases (nat_beq h i)) [
    | inl same ↦
        let k : m ≡ n = eq_of_some m n (ground (arith, same, e)) in
        omega (arith, q, ap (λ x. rank x.parent_hash) k, ap rank ((nat_beq_iff h i).0 same))
    | inr other ↦ ground (arith, other, e)
  ];
}

module _ {Tx H T R S PublicKey : Type 0} (platform : Platform Tx H T R S PublicKey) (rank : ℕ → ℕ)
    (rank_lem : (e : DataBlockEnvelope Tx) → rank e.parent_hash < rank (platform.hash_envelope e))
    (my_id : ℕ) (crypto_system : Map ℕ PublicKey) (all_ids : List ℕ) (num_faults : ℕ)
    (all_peers : List ℕ) (seed : R) (timer : T) (store : S) where
  open platform use {empty_hash, choice}

  abbrev pub settings : Config PublicKey
  settings = record { system = crypto_system; num_faults = num_faults; num_nodes = length all_ids }

  started-Holds :
      (c : LeaderContext R)
      → Holds platform rank settings
          (started platform my_id crypto_system all_ids num_faults all_peers timer store c)
  unfolding Committing.run Committing.start started initial_data initial_chain with_byte_budget
      meta_of genesis_block genesis_hash lookup wrapping_add
  started-Holds c = record {
    ranked =
        single-IsRanked rank (genesis_hash platform)
          (meta_of (genesis_block {Tx = Tx} empty_hash) (genesis_hash platform)) refl
          (rank_lem (genesis_block {Tx = Tx} empty_hash).envelope);
    climbing = λ p d e. ground (arith, e);
    waiting = tt;
    changes = λ epoch qc e. elim (Bool-cases (nat_beq 0 epoch)) [
      | inl same ↦ inl (sym ((nat_beq_iff 0 epoch).0 same))
      | inr other ↦ ground (arith, other, e)
    ];
    reached = (0, refl, refl);
    history = ([], refl);
    configured = refl;
  }

  begin-Holds :
      (s : Server platform)
      → Holds platform rank settings s
      → Holds platform rank settings (begin platform s)
  unfolding begin
  begin-Holds s v = elim (Bool-cases (nat_beq (leader platform s) s.data_plane.my_id)) [
    | inl e ↦ simp (e, if◌then◌else◌) v
    | inr e ↦ simp (e, if◌then◌else◌) v
  ]

  abbrev pub initial : LeaderContext R → Server platform
  initial c = started platform my_id crypto_system all_ids num_faults all_peers timer store c

  -- Where no block's hash is that of an ancestor, which a rank says, in which every block stands above
  -- its parent: the server starts, if the leaders' generator does not panic, and after any history of
  -- events it has panicked, or its blocks, links and parked blocks are in order and the change
  -- certificates that it admitted are valid ones. None of the loops inside the turns runs on for
  -- ever: neither the walks along the chain nor the admission of parked blocks.
  pub sound_from_start :
      (es : List (Event Tx)) (c : LeaderContext R)
      → LeaderContext.new choice seed all_ids num_faults ≡ some c
      → (s : Server platform) × (spawn platform my_id crypto_system all_ids num_faults all_peers
            seed timer store
          ≡ some s)
        × Leaves (Holds platform rank settings) (run platform (begin platform s) es)
  unfolding spawn
  sound_from_start es c e = (
    initial c,
    rw e refl,
    run-Keeps platform rank settings rank_lem (begin platform (initial c)) es
        (begin-Holds (initial c) (started-Holds c)),
  )

  pub ends_sound :
      (es : List (Event Tx)) (c : LeaderContext R) (t : Server platform)
      → run platform (begin platform (initial c)) es ≡ ok t
      → Holds platform rank settings t
  ends_sound es c t e = subst (Leaves (Holds platform rank settings)) e (
      run-Keeps platform rank settings rank_lem (begin platform (initial c)) es
        (begin-Holds (initial c) (started-Holds c)))

  -- Where blocks stand above their parents in a rank, and there are at most as many faulty servers as the
  -- settings allow for: a server that has taken any history of events from its start is in
  -- epoch 1, or it has admitted a change certificate of the epoch before its own, in which a server that is not faulty
  -- blames the eleader of that epoch with a valid blame of that epoch.
  pub epoch_ended_by_honest :
      (es : List (Event Tx)) (c : LeaderContext R) (t : Server platform) (faulty : List ℕ)
      → run platform (begin platform (initial c)) es ≡ ok t
      → length faulty ≤ num_faults
      → (t.data_plane.current_epoch ≡ 1)
        ⊎ ((epoch : ℕ) × (qc : EleaderChangeQc Tx) × (b : EleaderBlame Tx)
            × (t.data_plane.current_epoch ≡ wrapping_add epoch 1)
            × (lookup epoch t.admitted_change_qcs ≡ some qc)
            × Occurs b qc.blames
            × (set_contains b.signer faulty ≡ false)
            × (b.epoch ≡ epoch)
            × (eleader_blame_valid
                  (crypto platform)
                  b
                  crypto_system
                  (eleader epoch (length all_ids))
                ≡ some true))
  unfolding wrapping_add
  epoch_ended_by_honest es c t faulty e l =
      let v = ends_sound es c t e in
      let (epoch, k, r) = v.reached in
      let (qc, f) = admitted epoch t.admitted_change_qcs k in
      elim (v.changes epoch qc f) [
        | inl z ↦ inl (r ∙ ap (λ n. wrapping_add n 1) z)
        | inr (same, valid) ↦
            let (b, o, n, g, h) =
              honest_blamer (crypto platform) qc crypto_system num_faults (length all_ids) faulty
                valid l in
            inr (
              epoch,
              qc,
              b,
              r,
              f,
              o,
              n,
              g ∙ same,
              subst
                  (λ i.
                    eleader_blame_valid (crypto platform) b crypto_system
                      (eleader i (length all_ids))
                    ≡ some true)
                  same h,
            )
      ]
    where
      admitted :
          (epoch : ℕ) (m : Map ℕ (EleaderChangeQc Tx))
          → contains_key epoch m ≡ true
          → (qc : EleaderChangeQc Tx) × (lookup epoch m ≡ some qc)
      admitted epoch m k = elim (Option-cases (lookup epoch m)) [
        | inl e ↦ ground (arith, e, k)
        | inr (qc, e) ↦ (qc, e)
      ]
