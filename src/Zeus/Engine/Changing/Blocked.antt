-- ===== src/Zeus/Engine/Changing/Blocked.antt =====
-- consensus/src/server/zeus/phases/blame.rs and data.rs: a blame of the server's own that is not valid.
use leto_rs.Prelude.{
  ℕ, ◌+◌, ◌≡◌, ◌≢◌, refl, sym, inl, inr, true, false, some, List, [], ◌∷◌, ◌++◌, nat_eq,
  nat_beq_iff, ltb, if◌then◌else◌, Map, lookup, insert, contains_key, lookup-insert, length,
  All-Occurs, Occurs, Option-cases, Bool-cases, arith,
}
use mathlib.Core.Path.{subst}
use leto_rs.Prelude.Results.{Leaves}
use leto_rs.Leto.RoundContext.{queue_at, push}
use leto_rs.Zeus.Types.{EleaderBlame, EleaderChangeQc}
use leto_rs.Zeus.DataChain.{eleader, eleader_blame_valid, eleader_change_qc_valid}
use leto_rs.Zeus.DataChain.Quorum.{IsValidBlame, eleader_change_qc_valid_lem}
use leto_rs.Zeus.Engine.{Platform, Server, crypto}
use leto_rs.Zeus.Engine.Changing.{
  already_have, signers, form_change_qc, try_form_change_qc, accept_blame, on_eleader_blame,
}

module _ {Tx H T R S PublicKey : Type 0} (platform : Platform Tx H T R S PublicKey) where
  open platform use {hash_envelope, as_ref, sign}

  -- The blames that the server keeps for the epoch have one among them that is not valid.
  abbrev pub IsBlocked : ℕ → Server platform → Type 0
  IsBlocked epoch s =
      (b : EleaderBlame Tx) × Occurs b (queue_at epoch s.eleader_blames)
      × (eleader_blame_valid (crypto platform) b s.crypto_system
            (eleader epoch s.data_plane.num_nodes)
          ≢ some true)

  -- The data plane with its chain, the parked blocks, the epoch and the certificates are as they were,
  -- and the blames are still blocked.
  abbrev pub StaysBlocked : ℕ → Server platform → Server platform → Type 0
  StaysBlocked epoch s t =
      (t.data_plane ≡ s.data_plane)
      × (t.pending_data_blocks ≡ s.pending_data_blocks)
      × (t.data_plane.current_epoch ≡ s.data_plane.current_epoch)
      × (t.admitted_change_qcs ≡ s.admitted_change_qcs)
      × IsBlocked epoch t

  form_blocked :
      (s : Server platform) (epoch : ℕ)
      → IsBlocked epoch s
      → Leaves
          (StaysBlocked epoch s)
          (form_change_qc platform s epoch (queue_at epoch s.eleader_blames))
  unfolding form_change_qc
  form_blocked s epoch (b, o, x) =
      let blames = queue_at epoch s.eleader_blames in
      let qc : EleaderChangeQc Tx = record { epoch = epoch; blames = blames } in
      let n = s.data_plane.num_nodes in
      elim (Bool-cases (ltb (length (signers blames [])) (s.num_faults + 1))) [
        | inl e ↦ rw (e, if◌then◌else◌) (refl, refl, refl, refl, (b, o, x))
        | inr e ↦
            elim (Option-cases
              (eleader_change_qc_valid (crypto platform) qc s.crypto_system s.num_faults n)) [
                | inl f ↦ rw (e, if◌then◌else◌) (rw f tt)
                | inr (false, f) ↦ rw (e, if◌then◌else◌) (rw f (refl, refl, refl, refl, (b, o, x)))
                | inr (true, f) ↦
                    let (k, l) =
                      (eleader_change_qc_valid_lem (crypto platform) qc s.crypto_system s.num_faults
                          n).0
                        f in
                    let (same, valid) =
                      All-Occurs
                        (IsValidBlame (crypto platform) epoch s.crypto_system (eleader epoch n)) b
                        blames k o in
                    let z : ⊥ = x valid in elim z [ ]
              ]
      ]

  pub try_blocked :
      (s : Server platform) (epoch : ℕ)
      → IsBlocked epoch s
      → Leaves (StaysBlocked epoch s) (try_form_change_qc platform s epoch)
  unfolding try_form_change_qc
  try_blocked s epoch (b, o, x) = elim (Bool-cases (contains_key epoch s.admitted_change_qcs)) [
    | inl e ↦ rw (e, if◌then◌else◌) (refl, refl, refl, refl, (b, o, x))
    | inr e ↦ elim (Option-cases (lookup epoch s.eleader_blames)) [
      | inl f ↦ rw (e, if◌then◌else◌) (rw f (refl, refl, refl, refl, (b, o, x)))
      | inr (blames, f) ↦
          let g : queue_at epoch s.eleader_blames ≡ blames = rw f refl in
          rw (e, if◌then◌else◌)
            (rw f (
              subst (λ bs. Leaves (StaysBlocked epoch s) (form_change_qc platform s epoch bs)) g
                (form_blocked s epoch (b, o, x))))
    ]
  ]

  Occurs-behind : {A : Type 0} (a b : A) (xs : List A) → Occurs a xs → Occurs a (xs ++ b ∷ [])
  Occurs-behind a b [] o = elim o [ ]
  Occurs-behind a b (x ∷ xs) (inl e) = inl e
  Occurs-behind a b (x ∷ xs) (inr o) = inr (Occurs-behind a b xs o)

  pub Occurs-last : {A : Type 0} (a : A) (xs : List A) → Occurs a (xs ++ a ∷ [])
  Occurs-last a [] = inl refl
  Occurs-last a (x ∷ xs) = inr (Occurs-last a xs)

  pub inserted :
      {A : Type 0} (h : ℕ) (as' : List A) (m : Map ℕ (List A)) → queue_at h (insert h as' m) ≡ as'
  inserted h as' m = ground (arith, lookup-insert h h as' m, nat_beq_iff h h)

  -- While the blames that the server keeps for an epoch have one among them that is not valid, no blame of
  -- that epoch that arrives makes the server leave its epoch, change its data plane or its parked
  -- blocks, or admit a change certificate, however many servers blame.
  pub on_eleader_blame_blocked :
      (s : Server platform) (blame : EleaderBlame Tx)
      → IsBlocked blame.epoch s
      → Leaves (StaysBlocked blame.epoch s) (on_eleader_blame platform s blame)
  unfolding on_eleader_blame accept_blame push
  on_eleader_blame_blocked s blame (b, o, x) =
      let epoch = blame.epoch in
      let existing = queue_at epoch s.eleader_blames in
      elim (Option-cases (
        eleader_blame_valid (crypto platform) blame s.crypto_system
          (eleader epoch s.data_plane.num_nodes))) [
            | inl e ↦ rw (on_eleader_blame, e) tt
            | inr (false, e) ↦ rw (on_eleader_blame, e) (refl, refl, refl, refl, (b, o, x))
            | inr (true, e) ↦ elim (Bool-cases (already_have blame existing)) [
              | inl f ↦
                  rw (on_eleader_blame, e)
                    (rw (f, if◌then◌else◌)
                      (
                        refl,
                        refl,
                        refl,
                        refl,
                        (b, subst (Occurs b) (sym (inserted epoch existing s.eleader_blames)) o, x),
                      ))
              | inr f ↦
                  rw (on_eleader_blame, e)
                    (rw (f, if◌then◌else◌)
                      (try_blocked (record s { eleader_blames = push epoch blame s.eleader_blames })
                        epoch
                        (
                          b,
                          subst (Occurs b)
                              (sym (inserted epoch (existing ++ blame ∷ []) s.eleader_blames))
                              (Occurs-behind b blame existing o),
                          x,
                        )))
            ]
          ]
