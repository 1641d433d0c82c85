-- ===== src/Leto/Engine/Invariant/Leading.antt =====
-- consensus/src/server/leto/phases/proposal.rs: a leader that gets a batch proposes it, and neither
-- collecting certificates nor handling its own proposal panics.
use leto_rs.Prelude.{
  ℕ, zero, suc, ◌+◌, ◌-◌, ◌<◌, ◌≡◌, ◌≢◌, refl, ◌⊎◌, inl, inr, true, none, some, List, [], ◌∷◌,
  nat_eq, nat_beq, ltb, wrapping_sub, wrapping_add_small, usize_mod, length, get_elem_in_range,
  Bool-cases, Option-cases, arith,
}
use leto_rs.Prelude.Results.{ok, failed, panicked, ◌>>=◌, Ends, Ends-logged}
use leto_rs.Types.{Signature, Certificate, ProtocolMsg, propose}
use leto_rs.ChainDb.Contents.{IsCollisionFree}
use leto_rs.ChainDb.{Found, found, absent, garbled}
use leto_rs.Leto.RoundContext.{add_handlers}
use leto_rs.Leto.ChainState.{get_qc, get_batch}
use leto_rs.Leto.Engine.{Platform, Server, highest_round, current_round, broadcast}
use leto_rs.Leto.Engine.Proposing.{
  parent_of, is_proposal_valid, handle_proposal, collect_qcs, expect_batch, new_proposal,
  handle_new_batch,
}
use leto_rs.Leto.Engine.Proposing.Certificates.{RunsOut, check-Breaks}
use leto_rs.Leto.Engine.Invariant.{IsRunning}
use leto_rs.Leto.Engine.Invariant.Handling.{RunsOn, runs_on, broadcast-IsSound, accepted, verdict}

module _ {Tx H T R S PublicKey : Type 0} (platform : Platform Tx H T R S PublicKey) where
  -- All rounds from `n` down have certificates, and as many are collected.
  collect_all :
      (s : Server platform) (end n until : ℕ)
      → n < until
      → ((r : ℕ) → end < r → r < until → (qc : Certificate) × (get_qc s.chain_state r ≡ some qc))
      → (qcs : List Certificate) × (collect_qcs platform s end n ≡ ok qcs) × (length qcs ≡ n - end)
  unfolding collect_qcs
  collect_all s end zero until b h = ([], refl, omega arith)
  collect_all s end (suc n) until b h = elim (Bool-cases (ltb end (suc n))) [
    | inl e ↦
        let (qc, f) = h (suc n) (ground (arith, e)) b in
        let (qcs, g, l) = collect_all s end n until (omega arith) h in
        (qc ∷ qcs, rw (e, f, ◌>>=◌, g) refl, ground (arith, l, e))
    | inr e ↦ ([], rw (e) refl, ground (arith, e))
  ]

  -- The leader's own certificates do not run out.
  own_no_panic :
      (s t : Server platform) (hash : ℕ) (qcs : List Certificate)
      → highest_round s < current_round s
      → highest_round s + t.num_faults + 4 < usize_mod
      → length qcs ≡ (current_round s - 1) - highest_round s
      → is_proposal_valid platform t
          (new_proposal platform s hash qcs)
          s.chain_state.highest_chain_element
        ≢ panicked
  unfolding is_proposal_valid new_proposal
  own_no_panic s t hash qcs b o l e =
      let p = new_proposal platform s hash qcs in
      let (k, (f, w, (i, g, r))) =
        check-Breaks platform t p (t.num_faults + 3) (highest_round s + 1) 0 (omega arith)
          (omega arith) (omega arith)
          (rw (wrapping_add_small (highest_round s) 1 (omega arith)) at e) in
      runs_out qcs k i g r (elim f [ inl x ↦ inl (omega arith) | inr x ↦ inr (omega arith) ]) l
    where
      runs_out :
          (v : List Certificate) (k i : ℕ)
          → i ≡ 0 + k
          → RunsOut platform t (elim v [ [] ↦ none | qc ∷ qcs ↦ some (qc ∷ qcs) ]) i
          → (current_round s < highest_round s + 1) ⊎ (highest_round s + 1 + k < current_round s)
          → length v ≡ (current_round s - 1) - highest_round s
          → ⊥
      runs_out [] k i g r f m = r
      runs_out (qc ∷ v) k i g r f m =
          let x = get_elem_in_range (qc ∷ v) i r in
          elim f [ inl y ↦ omega arith | inr y ↦ omega arith ]

module _ {Tx H T R S PublicKey : Type 0} (platform : Platform Tx H T R S PublicKey) (ids : List ℕ)
    (limit : ℕ) where
  broadcast-IsRunning :
      (s : Server platform) (msg : ProtocolMsg Tx)
      → IsRunning platform ids limit s
      → IsRunning platform ids limit (broadcast platform s msg)
  unfolding broadcast add_handlers
  broadcast-IsRunning s msg v =
      let u = broadcast-IsSound platform ids limit s msg v.sound in
      record {
        sound = record {
          lockstep = u.lockstep;
          synced = u.synced;
          fair = u.fair;
          stored = u.stored;
          addressed = u.addressed;
          ready = u.ready;
          arriving = u.arriving;
          looping = u.looping;
          small = u.small;
        };
        behind = v.behind;
        certified = v.certified;
        blames = v.blames;
      }

  own_parent :
      (s : Server platform) (hash : ℕ) (qcs : List Certificate) (msg : ProtocolMsg Tx)
      → parent_of platform (broadcast platform s msg) (new_proposal platform s hash qcs)
        ≡ ok s.chain_state.highest_chain_element
  unfolding parent_of broadcast new_proposal
  own_parent s hash qcs msg =
      let e : nat_beq s.chain_state.highest_chain_hash s.chain_state.highest_chain_hash ≡ true =
        ground arith in
      rw (e) refl

  module _ (s : Server platform) (cf : IsCollisionFree platform.base.storage platform.base.do_hash)
      (l : 0 < limit) (b : current_round s + 1 < usize_mod)
      (o : current_round s + s.num_faults + 4 < usize_mod)
      (v : IsRunning platform ids limit s) where
    own_handled :
        (hash : ℕ) (qcs : List Certificate) (auth : Signature) (batch : List Tx)
        → length qcs ≡ (current_round s - 1) - highest_round s
        → let p = new_proposal platform s hash qcs in
          let t = broadcast platform s (propose p auth batch s.my_id) in
          Ends
            (RunsOn platform ids limit (current_round s))
            (handle_proposal platform t p auth batch)
    unfolding handle_proposal broadcast add_handlers new_proposal
    own_handled hash qcs auth batch n =
        let p = new_proposal platform s hash qcs in
        let msg = propose p auth batch s.my_id in
        let t = broadcast platform s msg in
        let w = broadcast-IsRunning s msg v in
        let go = accepted platform ids limit t cf l b w p auth batch refl in
        rw (own_parent s hash qcs msg, ◌>>=◌)
          (elim (verdict platform ids limit t p s.chain_state.highest_chain_element) [
            | inl g ↦ rw (g) go
            | inr (inl g) ↦ rw (g) go
            | inr (inr g) ↦
                let x : ⊥ =
                  own_no_panic platform s t hash qcs v.behind (omega (arith, v.behind, o)) n g in
                elim x [ ]
          ])

    batch_cases :
        (f : Found (List Tx))
        → ((batch : List Tx) × (expect_batch platform s f ≡ ok batch))
          ⊎ (expect_batch platform s f ≡ failed s)
    unfolding expect_batch
    batch_cases (found batch) = inl (batch, refl)
    batch_cases absent = inr refl
    batch_cases garbled = inr refl

    -- Between two turns, where the next rounds do not overflow, `handle_new_batch` does not panic,
    -- neither on a missing certificate nor in handling the server's own proposal, and leaves the
    -- server as it is between two turns.
    pub handle_new_batch-Ends :
        (hash : ℕ)
        → Ends (RunsOn platform ids limit (current_round s)) (handle_new_batch platform s hash)
    unfolding handle_new_batch wrapping_sub
    handle_new_batch-Ends hash =
        let back : wrapping_sub (current_round s) 1 ≡ current_round s - 1 =
          omega (arith, v.behind, b) in
        let (qcs, e, n) =
          collect_all platform s (highest_round s) (current_round s - 1) (current_round s)
            (omega (arith, v.behind)) v.certified in
        let p = new_proposal platform s hash qcs in
        elim (Option-cases (platform.sign (platform.hash_proposal p))) [
          | inl f ↦ rw (back, e, ◌>>=◌, f) (runs_on platform ids limit s v)
          | inr (raw, f) ↦ elim (batch_cases (get_batch platform.base s.chain_state hash)) [
            | inr g ↦ rw (back, e, ◌>>=◌, f, g) (runs_on platform ids limit s v)
            | inl (batch, g) ↦
                rw (back, e, ◌>>=◌, f, g)
                  (Ends-logged (RunsOn platform ids limit (current_round s)) _
                    (own_handled hash qcs (record { raw = raw; id = s.my_id }) batch n))
          ]
        ]
