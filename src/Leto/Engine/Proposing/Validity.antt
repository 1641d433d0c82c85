-- ===== src/Leto/Engine/Proposing/Validity.antt =====
-- consensus/src/server/leto/phases/proposal.rs: the verdict on a proposal and what depends on it.
use leto_rs.Prelude.{
  ℕ, suc, ◌+◌, ◌<◌, ◌≡◌, refl, sym, ◌∙◌, ◌↔◌, true, false, some, List, ◌∷◌, nat_eq, nat_beq, ltb,
  wrapping_sub, wrapping_add_small, usize_mod, arith, eq_of_some,
}
use leto_rs.Prelude.Results.{ok, panicked, or_panic, bind_ok, or_panic_ok, eq_of_ok}
use leto_rs.Types.{Certificate, Proposal, Element}
use leto_rs.Leto.ChainState.{get_qc}
use leto_rs.Leto.Engine.{Platform, Server, highest_round, current_round}
use leto_rs.Leto.Engine.Proposing.{
  is_round_qc, check_qcs, is_proposal_valid, collect_qcs, new_proposal,
}
use leto_rs.Leto.Engine.Proposing.Certificates.{
  Walks, Breaks, IsVerdict, one_found, check_covers, covers_check, check-Breaks, Breaks-check,
  check_ends,
}

module _ {Tx H T R S PublicKey : Type 0} (platform : Platform Tx H T R S PublicKey)
    (s : Server platform) where
  -- Where the rounds do not overflow, the check of a proposal ends. It says yes exactly if the
  -- proposal's round is `k` rounds behind the one that follows its parent's, for a `k` up to
  -- `num_faults + 1`, and its first `k` certificates are quorums' for the rounds between, in
  -- ascending order. It panics exactly if the vector of certificates ends before that round is
  -- reached and the certificates in it are quorums' for the rounds that they are taken for.
  pub is_proposal_valid_lem :
      (p : Proposal) (parent : Element Tx)
      → parent.proposal.round + s.num_faults + 4 < usize_mod
      → IsVerdict platform s p (is_proposal_valid platform s p parent)
        × ((is_proposal_valid platform s p parent ≡ ok true) ↔ (
            (k : ℕ) × (p.round ≡ parent.proposal.round + 1 + k)
            × Walks platform s p 0 (parent.proposal.round + 1) k))
        × ((is_proposal_valid platform s p parent ≡ panicked)
            ↔ ((k : ℕ) × Breaks platform s p 0 (parent.proposal.round + 1) k))
  unfolding is_proposal_valid
  is_proposal_valid_lem p parent b =
      let start = parent.proposal.round + 1 in
      let fuel = s.num_faults + 3 in
      rw (wrapping_add_small parent.proposal.round 1 (omega arith)) (
        check_ends platform s p fuel start 0 (omega arith) (omega arith),
        (
          check_covers platform s p fuel start 0 (omega arith) (omega arith) (omega arith),
          λ (k, f, w). covers_check platform s p fuel start 0 k (omega arith) (omega arith) f w,
        ),
        (
          check-Breaks platform s p fuel start 0 (omega arith) (omega arith) (omega arith),
          λ (k, w). Breaks-check platform s p fuel start 0 k (omega arith) (omega arith) w,
        ),
      )

  collect_first :
      (end n : ℕ) (qcs : List Certificate)
      → end < suc n
      → collect_qcs platform s end (suc n) ≡ ok qcs
      → (qc : Certificate) × (rest : List Certificate) × (qcs ≡ qc ∷ rest)
        × (get_qc s.chain_state (suc n) ≡ some qc)
  unfolding collect_qcs
  collect_first end n qcs h e =
      let late : ltb end (suc n) ≡ true = ground arith in
      let (qc, f, g) = bind_ok (or_panic (get_qc s.chain_state (suc n))) _ qcs (rw (late) at e) in
      let (rest, k, l) = bind_ok (collect_qcs platform s end n) _ qcs g in
      (
        qc,
        rest,
        sym (eq_of_ok (qc ∷ rest) qcs (ok (qc ∷ rest)) refl l),
        or_panic_ok (get_qc s.chain_state (suc n)) qc f,
      )

  first_invalid :
      (fuel more start : ℕ) (p : Proposal) (qc : Certificate) (rest : List Certificate)
      → fuel ≡ suc more
      → p.qc ≡ some (qc ∷ rest)
      → nat_beq p.round start ≡ false
      → is_round_qc platform s start qc ≡ false
      → check_qcs platform fuel s p start 0 ≡ ok false
  unfolding check_qcs
  first_invalid fuel more start p qc rest h e f g =
      rw (h, f, e) (one_found platform s (qc ∷ rest) qc start 0 _ refl ∙ rw (g) refl)

  -- A leader that collected the certificates of blamed rounds puts that of the last one first. Where
  -- it is not a quorum's for the first blamed round, which it is not meant to be if there are two,
  -- the leader's own proposal does not pass the check against the highest chain.
  pub own_proposal_invalid :
      (hash n : ℕ) (qc : Certificate) (qcs : List Certificate)
      → current_round s ≡ n + 2
      → highest_round s < n + 1
      → n + 2 < usize_mod
      → collect_qcs platform s (highest_round s) (wrapping_sub (current_round s) 1) ≡ ok qcs
      → get_qc s.chain_state (suc n) ≡ some qc
      → is_round_qc platform s (highest_round s + 1) qc ≡ false
      → is_proposal_valid platform s
          (new_proposal platform s hash qcs)
          s.chain_state.highest_chain_element
        ≡ ok false
  unfolding is_proposal_valid new_proposal wrapping_sub
  own_proposal_invalid hash n qc qcs c h b e g f =
      let back : wrapping_sub (current_round s) 1 ≡ suc n = omega (arith, c) in
      let (q, rest, k, l) =
        collect_first (highest_round s) n qcs (omega (arith, h)) (rw (back) at e) in
      let same : q ≡ qc = eq_of_some q qc (sym l ∙ g) in
      rw (wrapping_add_small (highest_round s) 1 (omega arith), k, same)
        (first_invalid (s.num_faults + 3) (s.num_faults + 2) (highest_round s + 1)
          (new_proposal platform s hash (qc ∷ rest)) qc rest (omega arith) refl
          (ground (arith, c, h)) f)
