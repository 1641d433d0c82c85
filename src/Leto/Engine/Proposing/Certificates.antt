-- ===== src/Leto/Engine/Proposing/Certificates.antt =====
-- consensus/src/server/leto/phases/proposal.rs: which certificates pass the check of a proposal.
use leto_rs.Prelude.{
  ℕ, zero, suc, ◌+◌, ◌≤◌, ◌<◌, ◌≡◌, refl, sym, ◌∙◌, ◌↔◌, ◌⊎◌, inl, inr, Bool, true, false, not,
  ◌&&◌, Option, none, some, List, nat_eq, nat_beq, ltb, if◌then◌else◌, wrapping_add,
  wrapping_add_small, usize_mod, get_elem?, Bool-cases, Option-cases, eq_of_some, arith,
}
use mathlib.Core.Path.{subst}
use leto_rs.Prelude.Results.{Handled, ok, panicked, ◌>>=◌}
use leto_rs.Types.{Certificate, Proposal}
use leto_rs.Leto.Engine.{Platform, Server}
use leto_rs.Leto.Engine.Proposing.{is_round_qc, check_one, check_qcs}

-- The certificate at the index, if the proposal carries one there.
abbrev pub qc_at : Option (List Certificate) → ℕ → Option Certificate
qc_at none idx = none
qc_at (some qc_vec) idx = get_elem? qc_vec idx

module _ {Tx H T R S PublicKey : Type 0} (platform : Platform Tx H T R S PublicKey)
    (s : Server platform) where
  -- The certificate at the index is a quorum's for the round.
  abbrev pub IsQcFor : Option (List Certificate) → ℕ → ℕ → Type 0
  IsQcFor qcs idx round =
      (qc : Certificate) × (qc_at qcs idx ≡ some qc) × (is_round_qc platform s round qc ≡ true)

  -- From the index on, the certificates are quorums' for `k` rounds in a row.
  abbrev pub Covers : Option (List Certificate) → ℕ → ℕ → ℕ → Type 0
  Covers qcs idx round zero = Unit
  Covers qcs idx round (suc k) = IsQcFor qcs idx round × Covers qcs (suc idx) (round + 1) k

  -- The vector is there and ends before the index.
  abbrev pub RunsOut : Option (List Certificate) → ℕ → Type 0
  RunsOut none idx = ⊥
  RunsOut (some qc_vec) idx = get_elem? qc_vec idx ≡ none

  -- The certificate of this turn, the bound on the index, and the rest.
  pub one_found :
      (v : List Certificate) (qc : Certificate) (start idx : ℕ)
      (rest : Handled (Server platform) Bool)
      → get_elem? v idx ≡ some qc
      → check_one platform s (some v) start idx rest
        ≡ (if is_round_qc platform s start qc && not (ltb s.num_faults idx) then rest else ok false)
  unfolding check_one
  one_found v qc start idx rest e = elim (Bool-cases (is_round_qc platform s start qc)) [
    | inl q ↦ elim (Bool-cases (ltb s.num_faults idx)) [
      | inl l ↦ rw (e, ◌>>=◌, q, l) refl
      | inr l ↦ rw (e, ◌>>=◌, q, l) refl
    ]
    | inr q ↦ rw (e, ◌>>=◌, q) refl
  ]

  pub one_none :
      (v : List Certificate) (start idx : ℕ) (rest : Handled (Server platform) Bool)
      → get_elem? v idx ≡ none
      → check_one platform s (some v) start idx rest ≡ panicked
  unfolding check_one
  one_none v start idx rest e = rw (e, ◌>>=◌) refl

  one_true :
      (qcs : Option (List Certificate)) (start idx : ℕ) (rest : Handled (Server platform) Bool)
      → (check_one platform s qcs start idx rest ≡ ok true)
        ↔ (IsQcFor qcs idx start × (idx ≤ s.num_faults) × (rest ≡ ok true))
  unfolding check_one
  one_true none start idx rest = ((λ h. cc), λ (q, l, r). cc)
  one_true (some v) start idx rest = elim (Option-cases (get_elem? v idx)) [
    | inl e ↦ ((λ h. cc (h, one_none v start idx rest e)), λ ((qc, a, g), l, r). cc)
    | inr (qc, e) ↦ (
      (λ h.
          let h' = sym (one_found v qc start idx rest e) ∙ h in
          ((qc, e, ground (arith, h')), ground (arith, h'), ground (arith, h'))),
      λ ((q, a, g), l, r).
          one_found v qc start idx rest e
          ∙ ground (
            arith,
            l,
            r,
            subst (λ c. is_round_qc platform s start c ≡ true) (sym (eq_of_some qc q (sym e ∙ a)))
                g,
          ),
    )
  ]

  one_panics :
      (qcs : Option (List Certificate)) (start idx : ℕ) (rest : Handled (Server platform) Bool)
      → (check_one platform s qcs start idx rest ≡ panicked)
        ↔ (RunsOut qcs idx ⊎ (IsQcFor qcs idx start × (idx ≤ s.num_faults) × (rest ≡ panicked)))
  unfolding check_one
  one_panics none start idx rest =
      ((λ h. cc), λ o. elim o [ inl x ↦ elim x [ ] | inr (q, l, r) ↦ cc ])
  one_panics (some v) start idx rest = elim (Option-cases (get_elem? v idx)) [
    | inl e ↦ ((λ h. inl e), λ o. one_none v start idx rest e)
    | inr (qc, e) ↦ (
      (λ h.
          let h' = sym (one_found v qc start idx rest e) ∙ h in
          inr ((qc, e, ground (arith, h')), ground (arith, h'), ground (arith, h'))),
      λ o. elim o [
        | inl x ↦ cc (x, e)
        | inr ((q, a, g), l, r) ↦
            one_found v qc start idx rest e
            ∙ ground (
              arith,
              l,
              r,
              subst (λ c. is_round_qc platform s start c ≡ true) (sym (eq_of_some qc q (sym e ∙ a)))
                  g,
            )
      ],
    )
  ]

  module _ (p : Proposal) where
    -- The check has walked over `k` rounds that the certificates cover.
    abbrev pub Walks : ℕ → ℕ → ℕ → Type 0
    Walks idx start k = (idx + k ≤ s.num_faults + 1) × Covers p.qc idx start k

    -- One turn of the check, where the round is not reached.
    next : ℕ → ℕ → ℕ → Handled (Server platform) Bool
    next fuel start idx = check_qcs platform fuel s p (wrapping_add start 1) (suc idx)

    one_next :
        (fuel start idx : ℕ)
        → start + suc fuel < usize_mod
        → next fuel start idx ≡ check_qcs platform fuel s p (start + 1) (suc idx)
    unfolding next
    one_next fuel start idx b = rw (wrapping_add_small start 1 (omega arith)) refl

    turn_true :
        (fuel start idx : ℕ)
        → start + suc fuel < usize_mod
        → nat_beq p.round start ≡ false
        → (check_qcs platform (suc fuel) s p start idx ≡ ok true) ↔ (
            IsQcFor p.qc idx start
            × (idx ≤ s.num_faults)
            × (check_qcs platform fuel s p (start + 1) (suc idx) ≡ ok true))
    unfolding check_qcs next
    turn_true fuel start idx b e =
        rw (e, ← one_next fuel start idx b) (one_true p.qc start idx (next fuel start idx))

    turn_panics :
        (fuel start idx : ℕ)
        → start + suc fuel < usize_mod
        → nat_beq p.round start ≡ false
        → (check_qcs platform (suc fuel) s p start idx ≡ panicked) ↔ (
            RunsOut p.qc idx
            ⊎ (IsQcFor p.qc idx start
                × (idx ≤ s.num_faults)
                × (check_qcs platform fuel s p (start + 1) (suc idx) ≡ panicked)))
    unfolding check_qcs next
    turn_panics fuel start idx b e =
        rw (e, ← one_next fuel start idx b) (one_panics p.qc start idx (next fuel start idx))

    pub check_covers :
        (fuel start idx : ℕ)
        → idx + fuel ≡ s.num_faults + 3
        → idx ≤ s.num_faults + 1
        → start + fuel < usize_mod
        → check_qcs platform fuel s p start idx ≡ ok true
        → (k : ℕ) × (p.round ≡ start + k) × Walks idx start k
    unfolding check_qcs
    check_covers zero start idx h l b x = cc
    check_covers (suc fuel) start idx h l b x = elim (Bool-cases (nat_beq p.round start)) [
      | inl e ↦ (0, ground (arith, e), (omega (arith, l), tt))
      | inr e ↦
          let (q, m, r) = (turn_true fuel start idx b e).0 x in
          let (k, f, (w, c)) =
            check_covers fuel (start + 1) (suc idx) (omega arith) (omega arith) (omega arith) r in
          (suc k, omega arith, (omega arith, (q, c)))
    ]

    pub covers_check :
        (fuel start idx k : ℕ)
        → idx + fuel ≡ s.num_faults + 3
        → start + fuel < usize_mod
        → p.round ≡ start + k
        → Walks idx start k
        → check_qcs platform fuel s p start idx ≡ ok true
    unfolding check_qcs
    covers_check zero start idx k h b f w = let x : ⊥ = omega arith in elim x [ ]
    covers_check (suc fuel) start idx zero h b f w =
        let e : nat_beq p.round start ≡ true = ground (arith, f) in rw (e) refl
    covers_check (suc fuel) start idx (suc k) h b f (w, (q, c)) =
        (turn_true fuel start idx b (ground (arith, f))).1 (
          q,
          omega arith,
          covers_check fuel (start + 1) (suc idx) k (omega arith) (omega arith) (omega arith)
              (omega arith, c),
        )

    -- The walk ends at a missing certificate before the round is reached.
    abbrev pub Breaks : ℕ → ℕ → ℕ → Type 0
    Breaks idx start k =
        ((p.round < start) ⊎ (start + k < p.round))
        × Walks idx start k
        × ((i : ℕ) × (i ≡ idx + k) × RunsOut p.qc i)

    pub check-Breaks :
        (fuel start idx : ℕ)
        → idx + fuel ≡ s.num_faults + 3
        → idx ≤ s.num_faults + 1
        → start + fuel < usize_mod
        → check_qcs platform fuel s p start idx ≡ panicked
        → (k : ℕ) × Breaks idx start k
    unfolding check_qcs
    check-Breaks zero start idx h l b x = cc
    check-Breaks (suc fuel) start idx h l b x = elim (Bool-cases (nat_beq p.round start)) [
      | inl e ↦ cc (rw (e) at x)
      | inr e ↦ elim ((turn_panics fuel start idx b e).0 x) [
        | inl o ↦ (0, (ground (arith, e), (omega arith, tt), (idx, omega arith, o)))
        | inr (q, m, r) ↦
            let (k, (f, (w, c), (i, g, o))) =
              check-Breaks fuel (start + 1) (suc idx) (omega arith) (omega arith) (omega arith) r in
            (suc k, (ground (arith, f, e), (omega arith, (q, c)), (i, omega arith, o)))
      ]
    ]

    pub Breaks-check :
        (fuel start idx k : ℕ)
        → idx + fuel ≡ s.num_faults + 3
        → start + fuel < usize_mod
        → Breaks idx start k
        → check_qcs platform fuel s p start idx ≡ panicked
    unfolding check_qcs
    Breaks-check zero start idx k h b (f, (w, c), o) = let x : ⊥ = omega arith in elim x [ ]
    Breaks-check (suc fuel) start idx zero h b (f, w, (i, g, o)) =
        (turn_panics fuel start idx b (ground (arith, f))).1
          (inl (subst (RunsOut p.qc) (omega (arith, g)) o))
    Breaks-check (suc fuel) start idx (suc k) h b (f, (w, (q, c)), (i, g, o)) =
        (turn_panics fuel start idx b (ground (arith, f))).1 (
          inr (
            q,
            omega arith,
            Breaks-check fuel (start + 1) (suc idx) k (omega arith) (omega arith)
                (ground (arith, f), (omega arith, c), (i, omega arith, o)),
          ))

    -- The check ends with a verdict or with a panic.
    abbrev pub IsVerdict : Handled (Server platform) Bool → Type 0
    IsVerdict r = (r ≡ ok true) ⊎ (r ≡ ok false) ⊎ (r ≡ panicked)

    one_ends :
        (qcs : Option (List Certificate)) (start idx : ℕ) (rest : Handled (Server platform) Bool)
        → IsVerdict rest ⊎ (s.num_faults < idx)
        → IsVerdict (check_one platform s qcs start idx rest)
    unfolding check_one
    one_ends none start idx rest h = inr (inl refl)
    one_ends (some v) start idx rest h = elim (Option-cases (get_elem? v idx)) [
      | inl e ↦ inr (inr (one_none v start idx rest e))
      | inr (qc, e) ↦ rw (one_found v qc start idx rest e) (
          rest_or_false (is_round_qc platform s start qc) (ltb s.num_faults idx)
            (elim h [ inl v ↦ inl v | inr l ↦ inr (ground (arith, l)) ]))
    ]
      where
        rest_or_false :
            (good late : Bool)
            → IsVerdict rest ⊎ (late ≡ true)
            → IsVerdict (if good && not late then rest else ok false)
        rest_or_false true true k = inr (inl refl)
        rest_or_false true false (inl v) = v
        rest_or_false true false (inr l) = cc
        rest_or_false false late k = inr (inl refl)

    pub check_ends :
        (fuel start idx : ℕ)
        → idx + fuel ≡ s.num_faults + 3
        → idx ≤ s.num_faults + 1
        → IsVerdict (check_qcs platform fuel s p start idx)
    unfolding check_qcs
    check_ends zero start idx h l = let x : ⊥ = omega arith in elim x [ ]
    check_ends (suc fuel) start idx h l = elim (Bool-cases (nat_beq p.round start)) [
      | inl e ↦ inl (rw (e) refl)
      | inr e ↦ rw (e) (
          one_ends p.qc start idx (check_qcs platform fuel s p (wrapping_add start 1) (suc idx))
            (elim (Bool-cases (ltb s.num_faults idx)) [
              | inl late ↦ inr (ground (arith, late))
              | inr early ↦ inl (
                  check_ends fuel (wrapping_add start 1) (suc idx) (omega arith)
                    (ground (arith, early)))
            ]))
    ]
