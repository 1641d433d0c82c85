-- ===== src/Zeus/Engine/Signing/Stale.antt =====
-- consensus/src/server/zeus/phases/sig.rs: which blame certificates end a round.
use leto_rs.Prelude.{
  ℕ, ◌≡◌, refl, inl, inr, true, false, some, nat_eq, nat_beq, if◌then◌else◌, wrapping_add,
  Option-cases,
}
use leto_rs.Prelude.Results.{
  ok, failed, ◌>>=◌, or_panic, or_fail, logged, Leaves, Leaves-if, Leaves-logged,
}
use leto_rs.Types.{Certificate, verify_certificate}
use leto_rs.Leto.LeaderContext
use leto_rs.Leto.LeaderContext.{LeaderContext}
use leto_rs.Leto.ChainState.{ChainState, add_qc}
use leto_rs.Zeus.Types.{Attestation}
use leto_rs.Zeus.Messages.{sig_blame_qc}
use leto_rs.Zeus.Rounds
use leto_rs.Zeus.Rounds.{next_round, add_handlers}
use leto_rs.Zeus.Attestations.{make_attestation}
use leto_rs.Zeus.Engine.{
  Platform, Server, attestation_crypto, pk_verify, current_round, leader, broadcast, loop_back,
  arm_data_timer, disarm_data_timer, view,
}
use leto_rs.Zeus.Engine.Signing.{
  sig_proposal, handle_new_sig_round, enter_round, try_commit, propose_if_leader, advance_sig_round,
  handle_sig_blame_qc, on_sig_blame_qc,
}

module _ {Tx H T R S PublicKey : Type 0} (platform : Platform Tx H T R S PublicKey) where
  open platform use {hash_round, hash_proposal, as_ref, sign, choice}

  -- The round, the signature chain and the leaders.
  abbrev pub sig_frame : Server platform → ℕ × (ChainState Attestation S × LeaderContext R)
  sig_frame s = (s.round_state.current_round, (s.sig_chain_state, s.data_plane.sig_leader_context))

  module _ (x : ℕ × (ChainState Attestation S × LeaderContext R)) where
    abbrev IsAt : Server platform → Type 0
    IsAt s = sig_frame s ≡ x

    handle_new_sig_round-IsAt :
        (s : Server platform) → IsAt s → Leaves IsAt (handle_new_sig_round platform s)
    unfolding handle_new_sig_round disarm_data_timer loop_back broadcast add_handlers
    handle_new_sig_round-IsAt s v =
        let t =
          disarm_data_timer platform
            (record s { data_plane = record s.data_plane { rleader_waiting_fresh = false } }) in
        elim (Option-cases (
          make_attestation (attestation_crypto platform) (view platform t)
            (current_round platform t))) [
              | inl e ↦ rw (e, or_fail, ◌>>=◌) v
              | inr (a, e) ↦
                  elim (Option-cases (sign (as_ref (hash_proposal (sig_proposal platform t a))))) [
                    | inl f ↦ rw (e, f, or_fail, ◌>>=◌) v
                    | inr (raw, f) ↦ rw (e, f, or_fail, ◌>>=◌) v
                  ]
            ]

    propose_if_leader-IsAt :
        (s : Server platform) → IsAt s → Leaves IsAt (propose_if_leader platform s)
    unfolding propose_if_leader
    propose_if_leader-IsAt s v =
        Leaves-if IsAt (nat_beq (leader platform s) s.data_plane.my_id)
          (logged (handle_new_sig_round platform s)) (ok s)
          (λ e.
            Leaves-logged IsAt (handle_new_sig_round platform s) (handle_new_sig_round-IsAt s v))
          (λ e. v)

  advanced :
      (s : Server platform) (c : LeaderContext R)
      → LeaderContext.advance_round choice s.data_plane.sig_leader_context ≡ some c
      → Leaves
          (λ t. sig_frame t ≡ (wrapping_add s.round_state.current_round 1, (s.sig_chain_state, c)))
          (advance_sig_round platform s)
  unfolding advance_sig_round enter_round try_commit arm_data_timer Rounds.advance_round next_round
  advanced s c l =
      rw (l, or_panic, ◌>>=◌) (propose_if_leader-IsAt _ (enter_round platform s c) refl)

  -- In a round without a certificate, any certificate that verifies ends it, whichever round it blames
  -- and however few signatures it has: the server is then in the next round, under its leaders, and
  -- keeps the certificate for the round that it blames. One that does not verify is an error, and
  -- a round that has a certificate takes no other.
  pub on_sig_blame_qc_lem :
      (s : Server platform) (blame_round : ℕ) (qc : Certificate) (c : LeaderContext R)
      → LeaderContext.advance_round choice s.data_plane.sig_leader_context ≡ some c
      → (s.round_state.got_qc ≡ true → on_sig_blame_qc platform s blame_round qc ≡ ok s)
        × (s.round_state.got_qc ≡ false
            → verify_certificate (pk_verify platform) qc (hash_round blame_round) s.crypto_system
              ≡ false
            → on_sig_blame_qc platform s blame_round qc ≡ failed s)
        × (s.round_state.got_qc ≡ false
            → verify_certificate (pk_verify platform) qc (hash_round blame_round) s.crypto_system
              ≡ true
            → Leaves
                (λ t. sig_frame t ≡ (
                  wrapping_add s.round_state.current_round 1,
                  (add_qc s.sig_chain_state blame_round qc, c),
                ))
                (on_sig_blame_qc platform s blame_round qc))
  unfolding on_sig_blame_qc handle_sig_blame_qc broadcast add_handlers
  on_sig_blame_qc_lem s blame_round qc c l = (
    (λ e. rw (e, if◌then◌else◌) refl),
    (λ e f. rw (e, if◌then◌else◌) (rw (f, if◌then◌else◌) refl)),
    (λ e f.
        let t =
          broadcast platform (record s { round_state = record s.round_state { got_qc = true } })
            (sig_blame_qc blame_round qc) in
        simp (e, f, if◌then◌else◌)
          (advanced (record t { sig_chain_state = add_qc t.sig_chain_state blame_round qc }) c l)),
  )
