-- ===== src/Zeus/Engine/Invariant/Changing.antt =====
-- consensus/src/server/zeus/phases/blame.rs: epochs end with valid certificates.
use leto_rs.Prelude.{
  ℕ, ◌+◌, inl, inr, true, false, Option, none, some, List, [], nat_eq, ltb, if◌then◌else◌, lookup,
  contains_key, length, Option-cases, Bool-cases,
}
use leto_rs.Prelude.Results.{Handled, ok, ◌>>=◌, or_panic, or_fail, Leaves}
use leto_rs.Leto.RoundContext.{queue_at, push}
use leto_rs.Zeus.Types.{silence, BlamePayload, silent_since, EleaderBlame, EleaderChangeQc}
use leto_rs.Zeus.Messages.{eleader_change_qc}
use leto_rs.Zeus.DataChain.{
  eleader, blame_signed_bytes, eleader_blame_valid, eleader_change_qc_valid,
}
use leto_rs.Zeus.Admitting.{DataTimerKind, timer_data_round_entry, rleader_waits, height_of}
use leto_rs.Zeus.Engine.{Platform, Server, crypto, broadcast, arm_data_timer, disarm_data_timer}
use leto_rs.Zeus.Engine.Changing.{
  already_have, signers, admit_change_qc, form_change_qc, try_form_change_qc, accept_blame,
  on_eleader_blame, on_eleader_change_qc, raise_blame, blame_silence, on_data_timer_expired,
}
use leto_rs.Zeus.Engine.Invariant.{Config, Holds}
use leto_rs.Zeus.Engine.Invariant.Epochs.{leave_epoch-Holds, admit_change_qc-Holds}

module _ {Tx H T R S PublicKey : Type 0} (platform : Platform Tx H T R S PublicKey) (rank : ℕ → ℕ)
    (config : Config PublicKey) where
  open platform use {sign}

  abbrev Keeps : Handled (Server platform) (Server platform) → Type 0
  Keeps = Leaves (Holds platform rank config)

  form_change_qc-Keeps :
      (s : Server platform) (epoch : ℕ) (blames : List (EleaderBlame Tx))
      → Holds platform rank config s
      → Keeps (form_change_qc platform s epoch blames)
  unfolding form_change_qc broadcast
  form_change_qc-Keeps s epoch blames v =
      let qc : EleaderChangeQc Tx = record { epoch = epoch; blames = blames } in
      elim (Bool-cases (ltb (length (signers blames [])) (s.num_faults + 1))) [
        | inl e ↦ rw (e, if◌then◌else◌) v
        | inr e ↦
            elim (Option-cases (
              eleader_change_qc_valid (crypto platform) qc s.crypto_system s.num_faults
                s.data_plane.num_nodes)) [
                  | inl f ↦ rw (e, if◌then◌else◌) (rw f tt)
                  | inr (false, f) ↦ rw (e, if◌then◌else◌) (rw f v)
                  | inr (true, f) ↦
                      let (w, k) = admit_change_qc-Holds platform rank config s qc v f in
                      rw (e, if◌then◌else◌)
                        (rw f (
                          leave_epoch-Holds platform rank config
                            (broadcast platform (admit_change_qc platform s qc)
                              (eleader_change_qc qc))
                            epoch w k))
                ]
      ]

  pub try_form_change_qc-Keeps :
      (s : Server platform) (epoch : ℕ)
      → Holds platform rank config s
      → Keeps (try_form_change_qc platform s epoch)
  unfolding try_form_change_qc
  try_form_change_qc-Keeps s epoch v =
      elim (Bool-cases (contains_key epoch s.admitted_change_qcs)) [
        | inl e ↦ rw (e, if◌then◌else◌) v
        | inr e ↦ elim (Option-cases (lookup epoch s.eleader_blames)) [
          | inl f ↦ rw (e, if◌then◌else◌) (rw f v)
          | inr (blames, f) ↦ rw (e, if◌then◌else◌) (rw f (form_change_qc-Keeps s epoch blames v))
        ]
      ]

  accept_blame-Keeps :
      (s : Server platform) (blame : EleaderBlame Tx)
      → Holds platform rank config s
      → Keeps (accept_blame platform s blame)
  unfolding accept_blame
  accept_blame-Keeps s blame v =
      elim (Bool-cases (already_have blame (queue_at blame.epoch s.eleader_blames))) [
        | inl e ↦ rw (e, if◌then◌else◌) v
        | inr e ↦
            rw (e, if◌then◌else◌)
              (try_form_change_qc-Keeps
                (record s { eleader_blames = push blame.epoch blame s.eleader_blames }) blame.epoch
                v)
      ]

  pub on_eleader_blame-Keeps :
      (s : Server platform) (blame : EleaderBlame Tx)
      → Holds platform rank config s
      → Keeps (on_eleader_blame platform s blame)
  unfolding on_eleader_blame
  on_eleader_blame-Keeps s blame v =
      elim (Option-cases (
        eleader_blame_valid (crypto platform) blame s.crypto_system
          (eleader blame.epoch s.data_plane.num_nodes))) [
            | inl e ↦ rw (on_eleader_blame, e) tt
            | inr (false, e) ↦ rw (on_eleader_blame, e) v
            | inr (true, e) ↦ rw (on_eleader_blame, e) (accept_blame-Keeps s blame v)
          ]

  pub on_eleader_change_qc-Keeps :
      (s : Server platform) (qc : EleaderChangeQc Tx)
      → Holds platform rank config s
      → Keeps (on_eleader_change_qc platform s qc)
  unfolding on_eleader_change_qc
  on_eleader_change_qc-Keeps s qc v =
      elim (Bool-cases (contains_key qc.epoch s.admitted_change_qcs)) [
        | inl e ↦ rw (e, if◌then◌else◌) v
        | inr e ↦
            elim (Option-cases (
              eleader_change_qc_valid (crypto platform) qc s.crypto_system s.num_faults
                s.data_plane.num_nodes)) [
                  | inl f ↦ rw (e, if◌then◌else◌) (rw f tt)
                  | inr (false, f) ↦ rw (e, if◌then◌else◌) (rw f v)
                  | inr (true, f) ↦
                      let (w, k) = admit_change_qc-Holds platform rank config s qc v f in
                      rw (e, if◌then◌else◌)
                        (rw f (leave_epoch-Holds platform rank config _ qc.epoch w k))
                ]
      ]

  pub raise_blame-Keeps :
      (s : Server platform) (blame : EleaderBlame Tx)
      → Holds platform rank config s
      → Keeps (raise_blame platform s blame)
  unfolding raise_blame broadcast
  raise_blame-Keeps s blame v = try_form_change_qc-Keeps _ blame.epoch v

  blame_silence-Keeps :
      (s : Server platform) → Holds platform rank config s → Keeps (blame_silence platform s)
  unfolding blame_silence
  blame_silence-Keeps s v =
      let payload : BlamePayload Tx = silent_since (height_of s.data_plane.latest_eleader_block) in
      elim (Option-cases
        (blame_signed_bytes (crypto platform) s.data_plane.current_epoch silence payload)) [
          | inl e ↦ rw (e, or_panic, ◌>>=◌) tt
          | inr (digest, e) ↦ elim (Option-cases (sign digest)) [
            | inl f ↦ rw (e, or_panic, ◌>>=◌) (rw (f, or_fail, ◌>>=◌) v)
            | inr (raw, f) ↦
                rw (e, or_panic, ◌>>=◌) (rw (f, or_fail, ◌>>=◌) (raise_blame-Keeps s _ v))
          ]
        ]

  timer_expired-Keeps :
      (s : Server platform) (kind : Option DataTimerKind)
      → Holds platform rank config s
      → Keeps (
          let t = disarm_data_timer platform s in
          elim kind [
            | none ↦ ok s
            | some timer_data_round_entry ↦ blame_silence platform t
            | some rleader_waits ↦ ok (arm_data_timer platform t rleader_waits)
          ])
  unfolding disarm_data_timer arm_data_timer
  timer_expired-Keeps s none v = v
  timer_expired-Keeps s (some timer_data_round_entry) v =
      blame_silence-Keeps (disarm_data_timer platform s) v
  timer_expired-Keeps s (some rleader_waits) v = v

  pub on_data_timer_expired-Keeps :
      (s : Server platform)
      → Holds platform rank config s
      → Keeps (on_data_timer_expired platform s)
  unfolding on_data_timer_expired
  on_data_timer_expired-Keeps s v = timer_expired-Keeps s s.data_plane.data_timer v
