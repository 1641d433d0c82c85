-- ===== src/Zeus/Admitting/Waking.antt =====
-- consensus/src/server/zeus/phases/data.rs: what an admission leaves, and when it wakes the leader.
use leto_rs.Prelude.{
  ℕ, ◌-◌, ◌≡◌, refl, sym, ap, ◌∙◌, inl, inr, Bool, false, not, ◌&&◌, ◌||◌, Option, none, some, List,
  [], ◌∷◌, max, nat_eq, nat_beq, ltb, if◌then◌else◌, Bool-cases, arith,
}
use leto_rs.Zeus.Types.{DataBlock}
use leto_rs.Zeus.Committing.Emission.{top_height}
use leto_rs.Zeus.Admitting.{
  DataState, DataTimerKind, timer_data_round_entry, rleader_waits, height_of, reset_timer,
  recover_window, disarm_waiting, wake_rleader, is_eleader, post_admit_side_effects, advance_to,
}

module _ {Tx : Type 0} where
  -- A block is higher than the last attested height.
  abbrev pub any_fresh : ℕ → List (DataBlock Tx) → Bool
  any_fresh h [] = false
  any_fresh h (b ∷ bs) = ltb h b.envelope.height || any_fresh h bs

  latest_height :
      (o : Option (DataBlock Tx)) (b : DataBlock Tx)
      → height_of (if ltb (height_of o) b.envelope.height then some b else o)
        ≡ max (height_of o) b.envelope.height
  latest_height o b = elim (Bool-cases (ltb (height_of o) b.envelope.height)) [
    | inl e ↦ rw (e, if◌then◌else◌) (ground (arith, e))
    | inr e ↦ rw (e, if◌then◌else◌) (ground (arith, e))
  ]

module _ {Tx R : Type 0} where
  -- This server leads, waits for a fresh block and gets one.
  abbrev pub is_woken : DataState Tx R → List (DataBlock Tx) → Bool
  is_woken s bs =
      s.rleader_waiting_fresh
      && (nat_beq s.sig_leader_context.current_leader s.my_id
          && any_fresh s.last_attested_data_height bs)

  -- Without timer and batcher.
  abbrev quiet : DataState Tx R → DataState Tx R
  quiet s = record s { data_timer = none; tx_consensus_to_batcher = [] }

  -- The same but for timer and batcher.
  abbrev IsSame : DataState Tx R → DataState Tx R → Type 0
  IsSame s t = quiet t ≡ quiet s

  reset_timer-IsSame : (s : DataState Tx R) (k : Option DataTimerKind) → IsSame s (reset_timer s k)
  unfolding reset_timer
  reset_timer-IsSame s none = refl
  reset_timer-IsSame s (some timer_data_round_entry) = refl
  reset_timer-IsSame s (some rleader_waits) = refl

  disarm_waiting-IsSame :
      (s : DataState Tx R) (k : Option DataTimerKind) → IsSame s (disarm_waiting s k)
  unfolding disarm_waiting
  disarm_waiting-IsSame s none = refl
  disarm_waiting-IsSame s (some timer_data_round_entry) = refl
  disarm_waiting-IsSame s (some rleader_waits) = refl

  recover_window-IsSame : (s : DataState Tx R) → IsSame s (recover_window s)
  unfolding recover_window
  recover_window-IsSame s =
      elim (Bool-cases (is_eleader s && nat_beq (s.eleader_proposed_height - s.head_height) 0)) [
        | inl e ↦ rw (e, if◌then◌else◌) refl
        | inr e ↦ rw (e, if◌then◌else◌) refl
      ]

  -- The head is at the block, and a waiting leader is woken by a fresh one.
  pub record IsAt (s : DataState Tx R) (hash : ℕ) (b : DataBlock Tx) (t : DataState Tx R)
      : Type 0 where
    pub zeus : t.zeus ≡ s.zeus
    pub head_hash : t.head_hash ≡ hash
    pub head_height : t.head_height ≡ b.envelope.height
    pub leader : t.sig_leader_context.current_leader ≡ s.sig_leader_context.current_leader
    pub my_id : t.my_id ≡ s.my_id
    pub latest :
        height_of t.latest_eleader_block ≡ max (height_of s.latest_eleader_block) b.envelope.height
    pub attested : t.last_attested_data_height ≡ s.last_attested_data_height
    pub waiting : t.rleader_waiting_fresh ≡ (s.rleader_waiting_fresh && not (is_woken s (b ∷ [])))
    pub wakeup : t.rleader_wakeup_pending ≡ (s.rleader_wakeup_pending || is_woken s (b ∷ []))

  woken : DataState Tx R → ℕ → Bool
  woken s h =
      s.rleader_waiting_fresh
      && (nat_beq s.sig_leader_context.current_leader s.my_id && ltb s.last_attested_data_height h)

  record IsWoken (s : DataState Tx R) (h : ℕ) (t : DataState Tx R) : Type 0 where
    zeus : t.zeus ≡ s.zeus
    head_hash : t.head_hash ≡ s.head_hash
    head_height : t.head_height ≡ s.head_height
    leader : t.sig_leader_context.current_leader ≡ s.sig_leader_context.current_leader
    my_id : t.my_id ≡ s.my_id
    latest : t.latest_eleader_block ≡ s.latest_eleader_block
    attested : t.last_attested_data_height ≡ s.last_attested_data_height
    waiting : t.rleader_waiting_fresh ≡ (s.rleader_waiting_fresh && not (woken s h))
    wakeup : t.rleader_wakeup_pending ≡ (s.rleader_wakeup_pending || woken s h)

  wake_rleader-IsWoken : (s : DataState Tx R) (h : ℕ) → IsWoken s h (wake_rleader s h)
  unfolding wake_rleader woken
  wake_rleader-IsWoken s h = elim (Bool-cases (woken s h)) [
    | inl e ↦
        let d = disarm_waiting-IsSame s s.data_timer in
        rw (e, if◌then◌else◌)
          (record {
            zeus = ap (λ q. q.zeus) d;
            head_hash = ap (λ q. q.head_hash) d;
            head_height = ap (λ q. q.head_height) d;
            leader = ap (λ q. q.sig_leader_context.current_leader) d;
            my_id = ap (λ q. q.my_id) d;
            latest = ap (λ q. q.latest_eleader_block) d;
            attested = ap (λ q. q.last_attested_data_height) d;
            waiting = ground (arith, e);
            wakeup = ground (arith, e);
          })
    | inr e ↦
        rw (e, if◌then◌else◌)
          (record {
            zeus = refl;
            head_hash = refl;
            head_height = refl;
            leader = refl;
            my_id = refl;
            latest = refl;
            attested = refl;
            waiting = ground (arith, e);
            wakeup = ground (arith, e);
          })
  ]

  woken-quiet : (s : DataState Tx R) (h : ℕ) → woken (quiet s) h ≡ woken s h
  unfolding woken
  woken-quiet s h = refl

  woken-IsSame : (s t : DataState Tx R) (h : ℕ) → IsSame s t → woken t h ≡ woken s h
  woken-IsSame s t h v = sym (woken-quiet t h) ∙ ap (λ q. woken q h) v ∙ woken-quiet s h

  woken-is_woken :
      (r s : DataState Tx R) (b : DataBlock Tx)
      → r.rleader_waiting_fresh ≡ s.rleader_waiting_fresh
      → r.sig_leader_context.current_leader ≡ s.sig_leader_context.current_leader
      → r.my_id ≡ s.my_id
      → r.last_attested_data_height ≡ s.last_attested_data_height
      → woken r b.envelope.height ≡ is_woken s (b ∷ [])
  unfolding woken
  woken-is_woken r s b w l i a = rw (w, l, i, a) (ground arith)

  pub advance_to-IsAt :
      (s : DataState Tx R) (hash : ℕ) (b : DataBlock Tx) → IsAt s hash b (advance_to s hash b)
  unfolding advance_to post_admit_side_effects
  advance_to-IsAt s hash b =
      let h = b.envelope.height in
      let r : DataState Tx R = record s {
        head_hash = hash;
        head_height = h;
        last_seen_data_block = b;
        latest_eleader_block =
            if ltb (height_of s.latest_eleader_block) h then some b else s.latest_eleader_block;
      } in
      let t = reset_timer r r.data_timer in
      let u = recover_window t in
      let v : IsSame r u = recover_window-IsSame t ∙ reset_timer-IsSame r r.data_timer in
      let w = wake_rleader-IsWoken u h in
      let k : woken u h ≡ is_woken s (b ∷ []) =
        woken-IsSame r u h v ∙ woken-is_woken r s b refl refl refl refl in
      record {
        zeus = w.zeus ∙ ap (λ q. q.zeus) v;
        head_hash = w.head_hash ∙ ap (λ q. q.head_hash) v;
        head_height = w.head_height ∙ ap (λ q. q.head_height) v;
        leader = w.leader ∙ ap (λ q. q.sig_leader_context.current_leader) v;
        my_id = w.my_id ∙ ap (λ q. q.my_id) v;
        latest =
            ap height_of (w.latest ∙ ap (λ q. q.latest_eleader_block) v)
            ∙ latest_height s.latest_eleader_block b;
        attested = w.attested ∙ ap (λ q. q.last_attested_data_height) v;
        waiting = w.waiting ∙ rw (ap (λ q. q.rleader_waiting_fresh) v, k) refl;
        wakeup = w.wakeup ∙ rw (ap (λ q. q.rleader_wakeup_pending) v, k) refl;
      }

  -- The state after the blocks, with the head at the hash.
  pub record HasAdvanced (s : DataState Tx R) (bs : List (DataBlock Tx)) (last top : ℕ)
      (t : DataState Tx R) : Type 0 where
    pub zeus : t.zeus ≡ s.zeus
    pub head_hash : t.head_hash ≡ last
    pub head_height : t.head_height ≡ top
    pub latest : height_of t.latest_eleader_block ≡ top_height (height_of s.latest_eleader_block) bs
    pub wakeup : t.rleader_wakeup_pending ≡ (s.rleader_wakeup_pending || is_woken s bs)

  pub HasAdvanced-nil : (s : DataState Tx R) → HasAdvanced s [] s.head_hash s.head_height s
  HasAdvanced-nil s = record {
    zeus = refl;
    head_hash = refl;
    head_height = refl;
    latest = refl;
    wakeup = ground arith;
  }

  pub HasAdvanced-cons :
      (s t u : DataState Tx R) (hash : ℕ) (b : DataBlock Tx) (bs : List (DataBlock Tx))
      (last top : ℕ)
      → IsAt s hash b t
      → HasAdvanced t bs last top u
      → HasAdvanced s (b ∷ bs) last top u
  HasAdvanced-cons s t u hash b bs last top a v = record {
    zeus = v.zeus ∙ a.zeus;
    head_hash = v.head_hash;
    head_height = v.head_height;
    latest = v.latest ∙ rw a.latest refl;
    wakeup = v.wakeup ∙ rw (a.wakeup, a.waiting, a.leader, a.my_id, a.attested) (ground arith);
  }
