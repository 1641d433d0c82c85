-- ===== src/Zeus/Engine/Invariant/Signing.antt =====
-- consensus/src/server/zeus/phases/sig.rs: the signature chain leaves the data chain as it is.
use leto_rs.Prelude.{
  ℕ, ◌≡◌, refl, inl, inr, false, some, nat_eq, nat_beq, if◌then◌else◌, lookup, insert, length,
  arith, Option-cases, Bool-cases,
}
use leto_rs.Prelude.Results.{
  Handled, ok, ◌>>=◌, or_panic, or_fail, logged, Leaves, Leaves-if, Leaves-logged,
}
use leto_rs.Types.{
  Signature, Certificate, Proposal, verify_signature, verify_without_id_check, verify_certificate,
  empty_certificate,
}
use leto_rs.Leto.LeaderContext
use leto_rs.Leto.LeaderContext.{LeaderContext}
use leto_rs.Leto.Engine.Blaming.{add_all}
use leto_rs.Zeus.Types.{Attestation}
use leto_rs.Zeus.Messages.{ZeusMsg, sig_propose}
use leto_rs.Zeus.Attestations.{
  AttestationValidity, valid, invalid, parked, ZeusView, make_attestation,
}
use leto_rs.Zeus.Attestations.Verdicts.{attestation_valid_lem}
use leto_rs.Zeus.Engine.{
  Platform, Server, attestation_crypto, pk_verify, current_round, leader, highest_round, qc_len,
  broadcast, send, loop_back, broadcast_data_request, arm_data_timer, disarm_data_timer, view,
}
use leto_rs.Zeus.Engine.Signing.{
  sig_proposal, handle_new_sig_round, enter_round, try_commit, propose_if_leader, advance_sig_round,
  relay_sig_proposal, on_correct_sig_proposal, check_sig_leader, on_validity, handle_sig_proposal,
  handle_sig_blame_qc, add_sig_blame, handle_sig_blame, on_sig_blame_qc, on_round_timeout,
}
use leto_rs.Zeus.Engine.Invariant.{Config, core, Holds, Holds-core}

module _ {Tx H T R S PublicKey : Type 0} (platform : Platform Tx H T R S PublicKey) where
  open platform use {hash_round, hash_proposal, as_ref, sign, choice}

  pub broadcast-core :
      (s : Server platform) (msg : ZeusMsg Tx)
      → core platform (broadcast platform s msg) ≡ core platform s
  unfolding broadcast
  broadcast-core s msg = refl

  pub send-core :
      (s : Server platform) (peer : ℕ) (msg : ZeusMsg Tx)
      → core platform (send platform s peer msg) ≡ core platform s
  unfolding send
  send-core s peer msg = refl

  relay-core :
      (s : Server platform) (p : Proposal) (auth : Signature)
      → core platform (relay_sig_proposal platform s p auth) ≡ core platform s
  unfolding relay_sig_proposal send
  relay-core s p auth = ground arith

  module _ (rank : ℕ → ℕ) (config : Config PublicKey) where
    abbrev Keeps : Handled (Server platform) (Server platform) → Type 0
    Keeps = Leaves (Holds platform rank config)

    pub handle_new_sig_round-Keeps :
        (s : Server platform)
        → Holds platform rank config s
        → Keeps (handle_new_sig_round platform s)
    unfolding handle_new_sig_round disarm_data_timer loop_back broadcast
    handle_new_sig_round-Keeps s v =
        let t =
          disarm_data_timer platform
            (record s { data_plane = record s.data_plane { rleader_waiting_fresh = false } }) in
        elim (Option-cases (
          make_attestation (attestation_crypto platform) (view platform t)
            (current_round platform t))) [
              | inl e ↦ rw (e, or_fail, ◌>>=◌) v
              | inr (a, e) ↦
                  elim (Option-cases (sign (as_ref (hash_proposal (sig_proposal platform t a))))) [
                    | inl f ↦ rw (e, f, or_fail, ◌>>=◌) v
                    | inr (raw, f) ↦ rw (e, f, or_fail, ◌>>=◌) v
                  ]
            ]

    propose_if_leader-Keeps :
        (s : Server platform) → Holds platform rank config s → Keeps (propose_if_leader platform s)
    unfolding propose_if_leader
    propose_if_leader-Keeps s v =
        Leaves-if (Holds platform rank config) (nat_beq (leader platform s) s.data_plane.my_id)
          (logged (handle_new_sig_round platform s)) (ok s)
          (λ e.
            Leaves-logged (Holds platform rank config) (handle_new_sig_round platform s)
              (handle_new_sig_round-Keeps s v))
          (λ e. v)

    pub advance_sig_round-Keeps :
        (s : Server platform) → Holds platform rank config s → Keeps (advance_sig_round platform s)
    unfolding advance_sig_round enter_round try_commit arm_data_timer
    advance_sig_round-Keeps s v =
        elim (Option-cases (LeaderContext.advance_round choice s.data_plane.sig_leader_context)) [
          | inl e ↦ rw (e, or_panic, ◌>>=◌) tt
          | inr (c, e) ↦
              rw (e, or_panic, ◌>>=◌) (propose_if_leader-Keeps (enter_round platform s c) v)
        ]

    handle_sig_blame_qc-Keeps :
        (s : Server platform) (r : ℕ) (qc : Certificate)
        → Holds platform rank config s
        → Keeps (handle_sig_blame_qc platform s r qc)
    unfolding handle_sig_blame_qc broadcast
    handle_sig_blame_qc-Keeps s r qc v = advance_sig_round-Keeps _ v

    add_sig_blame-Keeps :
        (s : Server platform) (r : ℕ) (auth : Signature)
        → Holds platform rank config s
        → Keeps (add_sig_blame platform s r auth)
    unfolding add_sig_blame
    add_sig_blame-Keeps s r auth v =
        let blame_map = insert auth.id auth s.round_state.blame_map in
        elim (Bool-cases (nat_beq (length blame_map) (qc_len platform s))) [
          | inl e ↦
              rw (e, if◌then◌else◌)
                (handle_sig_blame_qc-Keeps _ r (add_all blame_map empty_certificate) v)
          | inr e ↦ rw (e, if◌then◌else◌) v
        ]

    pub handle_sig_blame-Keeps :
        (s : Server platform) (r : ℕ) (auth : Signature)
        → Holds platform rank config s
        → Keeps (handle_sig_blame platform s r auth)
    unfolding handle_sig_blame
    handle_sig_blame-Keeps s r auth v = elim (Bool-cases (nat_beq (highest_round platform s) r)) [
      | inl e ↦ rw (e, if◌then◌else◌) v
      | inr e ↦ elim (Bool-cases s.round_state.got_qc) [
        | inl f ↦ simp (e, f, if◌then◌else◌) v
        | inr f ↦ elim (Option-cases (lookup auth.id s.crypto_system)) [
          | inl g ↦ simp (e, f, if◌then◌else◌) (rw (g, or_fail, ◌>>=◌) v)
          | inr (pk, g) ↦
              elim (Bool-cases
                (verify_without_id_check (pk_verify platform) auth (hash_round r) pk)) [
                  | inl h ↦
                      simp (e, f, if◌then◌else◌)
                        (rw (g, or_fail, ◌>>=◌)
                          (rw (h, if◌then◌else◌) (add_sig_blame-Keeps s r auth v)))
                  | inr h ↦
                      simp (e, f, if◌then◌else◌) (rw (g, or_fail, ◌>>=◌) (rw (h, if◌then◌else◌) v))
                ]
        ]
      ]
    ]

    pub on_sig_blame_qc-Keeps :
        (s : Server platform) (r : ℕ) (qc : Certificate)
        → Holds platform rank config s
        → Keeps (on_sig_blame_qc platform s r qc)
    unfolding on_sig_blame_qc
    on_sig_blame_qc-Keeps s r qc v = elim (Bool-cases s.round_state.got_qc) [
      | inl e ↦ rw (e, if◌then◌else◌) v
      | inr e ↦
          elim (Bool-cases
            (verify_certificate (pk_verify platform) qc (hash_round r) s.crypto_system)) [
              | inl f ↦ simp (e, f, if◌then◌else◌) (handle_sig_blame_qc-Keeps s r qc v)
              | inr f ↦ simp (e, f, if◌then◌else◌) v
            ]
    ]

    pub on_round_timeout-Keeps :
        (s : Server platform) → Holds platform rank config s → Keeps (on_round_timeout platform s)
    unfolding on_round_timeout broadcast loop_back
    on_round_timeout-Keeps s v =
        elim (Option-cases (sign (as_ref (hash_round (current_round platform s))))) [
          | inl e ↦ rw (e, or_fail, ◌>>=◌) v
          | inr (raw, e) ↦ rw (e, or_fail, ◌>>=◌) v
        ]

    on_correct-Keeps :
        (s : Server platform) (p : Proposal) (auth : Signature) (att : Attestation)
        → Holds platform rank config s
        → Keeps (on_correct_sig_proposal platform s p auth att)
    unfolding on_correct_sig_proposal
    on_correct-Keeps s p auth att v = advance_sig_round-Keeps _ (
        Holds-core platform rank config s (relay_sig_proposal platform s p auth)
          (relay-core s p auth) v)

    check_sig_leader-Keeps :
        (s : Server platform) (p : Proposal) (auth : Signature)
        (m : Handled (Server platform) (Server platform))
        → Holds platform rank config s
        → Keeps m
        → Keeps (check_sig_leader platform s p auth >>= λ signed. m)
    unfolding check_sig_leader
    check_sig_leader-Keeps s p auth m v k =
        elim (Bool-cases (nat_beq (leader platform s) s.data_plane.my_id)) [
          | inl e ↦ rw (e, if◌then◌else◌, ◌>>=◌) k
          | inr e ↦ elim (Option-cases (lookup (leader platform s) s.crypto_system)) [
            | inl f ↦ rw (e, if◌then◌else◌) (rw (f, or_fail, ◌>>=◌) v)
            | inr (pk, f) ↦
                elim (Bool-cases (
                  verify_signature (pk_verify platform) auth (hash_proposal p) (leader platform s)
                    pk)) [
                      | inl g ↦
                          rw (e, if◌then◌else◌)
                            (rw (f, or_fail, ◌>>=◌) (rw (g, if◌then◌else◌, ◌>>=◌) k))
                      | inr g ↦
                          rw (e, if◌then◌else◌)
                            (rw (f, or_fail, ◌>>=◌) (rw (g, if◌then◌else◌, ◌>>=◌) v))
                    ]
          ]
        ]

    on_validity-Keeps :
        (s : Server platform) (p : Proposal) (auth : Signature) (att : Attestation)
        (r : AttestationValidity) (z : ZeusView PublicKey (ZeusMsg Tx))
        → Holds platform rank config s
        → Keeps (on_validity platform s p auth att (some (r, z)))
    unfolding on_validity broadcast_data_request broadcast
    on_validity-Keeps s p auth att valid z v = on_correct-Keeps _ p auth att v
    on_validity-Keeps s p auth att invalid z v = v
    on_validity-Keeps s p auth att (parked h) z v = v

    pub handle_sig_proposal-Keeps :
        (s : Server platform) (p : Proposal) (auth : Signature) (att : Attestation) (sender : ℕ)
        → Holds platform rank config s
        → Keeps (handle_sig_proposal platform s p auth att sender)
    unfolding handle_sig_proposal
    handle_sig_proposal-Keeps s p auth att sender v =
        let (r, z, e, w) =
          attestation_valid_lem (attestation_crypto platform) rank (view platform s) att
            (sig_propose p auth att sender) v.ranked in
        elim (Bool-cases (nat_beq p.round (current_round platform s))) [
          | inl f ↦
              rw (f, if◌then◌else◌)
                (check_sig_leader-Keeps s p auth _ v (rw e (on_validity-Keeps s p auth att r z v)))
          | inr f ↦ rw (f, if◌then◌else◌) v
        ]
