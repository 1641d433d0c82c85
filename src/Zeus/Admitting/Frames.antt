-- ===== src/Zeus/Admitting/Frames.antt =====
-- consensus/src/server/zeus/phases/data.rs: what an advance of the head leaves as it is.
use leto_rs.Prelude.{
  ℕ, zero, suc, ◌-◌, ◌≡◌, refl, sym, ap, ◌∙◌, inl, inr, ◌&&◌, Option, none, some, nat_eq, nat_beq,
  ltb, if◌then◌else◌, length, Bool-cases, Option-cases, eq_of_some,
}
use leto_rs.Zeus.Types.{DataBlock}
use leto_rs.Zeus.Store.{Codec}
use leto_rs.Zeus.Committing.{ZeusState, insert_non_head}
use leto_rs.Zeus.Admitting.{
  DataState, DataTimerKind, timer_data_round_entry, rleader_waits, height_of, reset_timer,
  recover_window, disarm_waiting, wake_rleader, is_eleader, post_admit_side_effects, advance_to,
  insert_and_advance, next_block, advance_head, advance_head_via_child_of,
}

module _ {Tx R : Type 0} where
  -- The store, the links, the epoch and the number of servers.
  abbrev pub frame : DataState Tx R → ZeusState Tx × (ℕ × ℕ)
  frame s = (s.zeus, (s.current_epoch, s.num_nodes))

  reset_timer-frame :
      (s : DataState Tx R) (k : Option DataTimerKind) → frame (reset_timer s k) ≡ frame s
  unfolding reset_timer
  reset_timer-frame s none = refl
  reset_timer-frame s (some timer_data_round_entry) = refl
  reset_timer-frame s (some rleader_waits) = refl

  disarm_waiting-frame :
      (s : DataState Tx R) (k : Option DataTimerKind) → frame (disarm_waiting s k) ≡ frame s
  unfolding disarm_waiting
  disarm_waiting-frame s none = refl
  disarm_waiting-frame s (some timer_data_round_entry) = refl
  disarm_waiting-frame s (some rleader_waits) = refl

  recover_window-frame : (s : DataState Tx R) → frame (recover_window s) ≡ frame s
  unfolding recover_window
  recover_window-frame s =
      elim (Bool-cases (is_eleader s && nat_beq (s.eleader_proposed_height - s.head_height) 0)) [
        | inl e ↦ rw (e, if◌then◌else◌) refl
        | inr e ↦ rw (e, if◌then◌else◌) refl
      ]

  wake_rleader-frame : (s : DataState Tx R) (h : ℕ) → frame (wake_rleader s h) ≡ frame s
  unfolding wake_rleader
  wake_rleader-frame s h =
      elim (Bool-cases (
        s.rleader_waiting_fresh
        && (nat_beq s.sig_leader_context.current_leader s.my_id
            && ltb s.last_attested_data_height h))) [
              | inl e ↦ rw (e, if◌then◌else◌) (disarm_waiting-frame s s.data_timer)
              | inr e ↦ rw (e, if◌then◌else◌) refl
            ]

  advance_to-frame :
      (s : DataState Tx R) (h : ℕ) (b : DataBlock Tx) → frame (advance_to s h b) ≡ frame s
  unfolding advance_to post_admit_side_effects
  advance_to-frame s h b =
      let r : DataState Tx R = record s {
        head_hash = h;
        head_height = b.envelope.height;
        last_seen_data_block = b;
        latest_eleader_block =
            if ltb (height_of s.latest_eleader_block) b.envelope.height
            then some b
            else s.latest_eleader_block;
      } in
      let t = reset_timer r r.data_timer in
      wake_rleader-frame (recover_window t) b.envelope.height
      ∙ (recover_window-frame t ∙ reset_timer-frame r r.data_timer)

module _ {Tx R : Type 0} (codec : Codec Tx) (read : ℕ → Option (DataBlock Tx)) where
  advance_head-frame :
      (fuel : ℕ) (s t : DataState Tx R)
      → advance_head codec read fuel s ≡ some t
      → frame t ≡ frame s
  unfolding advance_head
  advance_head-frame zero s t e = cc
  advance_head-frame (suc fuel) s t e =
      elim (Option-cases (next_block codec read s.zeus s.head_hash)) [
        | inl f ↦ ap frame (eq_of_some t s (sym e ∙ rw (advance_head, f) refl))
        | inr ((n, b), f) ↦
            advance_head-frame fuel (advance_to s n b) t (sym (rw (advance_head, f) refl) ∙ e)
            ∙ advance_to-frame s n b
      ]

  pub insert_and_advance-frame :
      (s : DataState Tx R) (b : DataBlock Tx) (h p : ℕ)
      → frame (insert_and_advance codec read s b h p)
        ≡ (insert_non_head codec s.zeus b h p, (s.current_epoch, s.num_nodes))
  unfolding insert_and_advance insert_non_head
  insert_and_advance-frame s b h p =
      advance_to-frame (record s { zeus = insert_non_head codec s.zeus b h p }) h b

  pub advance_head_via_child_of-frame :
      (s t : DataState Tx R) → advance_head_via_child_of codec read s ≡ some t → frame t ≡ frame s
  unfolding advance_head_via_child_of
  advance_head_via_child_of-frame s t e = advance_head-frame (suc (length s.zeus.child_of)) s t e
