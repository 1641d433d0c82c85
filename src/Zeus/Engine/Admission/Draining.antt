-- ===== src/Zeus/Engine/Admission/Draining.antt =====
-- consensus/src/server/zeus/phases/data.rs: what an admission leaves behind.
use leto_rs.Prelude.{
  ℕ, zero, suc, ◌≡◌, refl, sym, ◌∙◌, ◌⊎◌, inl, inr, Bool, true, false, List, [], ◌∷◌, nat_eq,
  nat_beq, nat_beq_iff, if◌then◌else◌, Map, remove, contains_key, lookup-remove, Option-cases,
  Bool-cases, arith,
}
use mathlib.Core.Path.{subst}
use leto_rs.Prelude.Results.{Handled, ok, failed, panicked, out_of_fuel, ◌>>=◌, bind_ok, eq_of_ok}
use leto_rs.Leto.RoundContext.{queue_at}
use leto_rs.Zeus.Types.{DataBlock}
use leto_rs.Zeus.Store.{insert_block}
use leto_rs.Zeus.Store.Index.{contains-insert_block}
use leto_rs.Zeus.Committing.{ZeusState, insert_non_head}
use leto_rs.Zeus.Admitting.{DataState, insert_and_advance, advance_head_via_child_of}
use leto_rs.Zeus.Admitting.Frames.{frame, insert_and_advance-frame, advance_head_via_child_of-frame}
use leto_rs.Zeus.Engine.{Platform, Server, codec, broadcast, broadcast_data_request}
use leto_rs.Zeus.Engine.Admission.{
  genesis_hash, drain_pending_attestations, replay_at_head, insert_at_head, insert_bridge,
  advance_head, park_block, admit_with, admit_all, take_parked, drain,
}

module _ {Tx H T R S PublicKey : Type 0} (platform : Platform Tx H T R S PublicKey) where
  open platform use {hash_envelope, read_block}

  -- The block of the hash is in the store.
  abbrev pub IsStored : ℕ → Server platform → Type 0
  IsStored h s = contains_key h s.data_plane.zeus.data_block_db.meta ≡ true

  -- No block and no attestation waits for the head.
  abbrev pub NoBlockWaits : Server platform → Type 0
  NoBlockWaits s = queue_at s.data_plane.head_hash s.pending_data_blocks ≡ []

  abbrev pub NoAttestationWaits : Server platform → Type 0
  NoAttestationWaits s = queue_at s.data_plane.head_hash s.pending_attestations ≡ []

  pub removed : {A : Type 0} (h : ℕ) (m : Map ℕ (List A)) → queue_at h (remove h m) ≡ []
  removed h m = ground (arith, lookup-remove h h m, nat_beq_iff h h)

  queue_cases :
      (bs : List (DataBlock Tx))
      → (bs ≡ []) ⊎ ((b : DataBlock Tx) × (cs : List (DataBlock Tx)) × (bs ≡ b ∷ cs))
  queue_cases [] = inl refl
  queue_cases (b ∷ cs) = inr (b, cs, refl)

  -- Behind the loop, nothing is parked under the head.
  pub drain-NoBlockWaits :
      (fuel : ℕ) (s t : Server platform) → drain platform fuel s ≡ ok t → NoBlockWaits t
  unfolding drain take_parked
  drain-NoBlockWaits zero s t e = cc
  drain-NoBlockWaits (suc fuel) s t e =
      let h = s.data_plane.head_hash in
      let u = take_parked platform s h in
      elim (queue_cases (queue_at h s.pending_data_blocks)) [
        | inl f ↦
            let p : drain platform (suc fuel) s ≡ ok u = rw (drain, f) refl in
            subst NoBlockWaits (eq_of_ok u t (drain platform (suc fuel) s) p e)
              (removed h s.pending_data_blocks)
        | inr (b, cs, f) ↦
            let m = admit_all platform (drain platform fuel) u (b ∷ cs) in
            let p : drain platform (suc fuel) s ≡ (m >>= drain platform fuel) =
              rw (drain, f) refl in
            let (w, q, r) = bind_ok m (drain platform fuel) t (sym p ∙ e) in
            drain-NoBlockWaits fuel w t r
      ]

  -- What a handler that ends well leaves.
  abbrev pub Gives :
      (Server platform → Type 0) → Handled (Server platform) (Server platform) → Type 0
  Gives P (ok s) = P s
  Gives P (failed s) = Unit
  Gives P panicked = Unit
  Gives P out_of_fuel = Unit

  Gives-seq :
      (P : Server platform → Type 0) (m : Handled (Server platform) (Server platform))
      (f : Server platform → Handled (Server platform) (Server platform))
      → Gives P m
      → ((s : Server platform) → P s → Gives P (f s))
      → Gives P (m >>= f)
  Gives-seq P (ok s) f h g = g s h
  Gives-seq P (failed s) f h g = tt
  Gives-seq P panicked f h g = tt
  Gives-seq P out_of_fuel f h g = tt

  Gives-if :
      (P : Server platform → Type 0) (b : Bool) (m n : Handled (Server platform) (Server platform))
      → Gives P m
      → Gives P n
      → Gives P (if b then m else n)
  Gives-if P true m n h k = h
  Gives-if P false m n h k = k

  meta_of_zeus :
      (s : Server platform) (d : DataState Tx R) (zeus : ZeusState Tx) (h : ℕ)
      → frame d ≡ (zeus, (s.data_plane.current_epoch, s.data_plane.num_nodes))
      → contains_key h zeus.data_block_db.meta ≡ true
      → IsStored h (record s { data_plane = d })
  meta_of_zeus s d zeus h e k = subst (λ f. contains_key h f.0.data_block_db.meta ≡ true) (sym e) k

  insert_keeps :
      (s : Server platform) (b : DataBlock Tx) (h : ℕ)
      → IsStored h s
      → contains_key h (insert_block (codec platform) s.data_plane.zeus.data_block_db b).meta ≡ true
  insert_keeps s b h k =
      contains-insert_block (codec platform) s.data_plane.zeus.data_block_db b h ∙ ground (arith, k)

  pub insert_stores :
      (s : Server platform) (b : DataBlock Tx)
      → contains_key
          (hash_envelope b.envelope)
          (insert_block (codec platform) s.data_plane.zeus.data_block_db b).meta
        ≡ true
  insert_stores s b =
      let h = hash_envelope b.envelope in
      contains-insert_block (codec platform) s.data_plane.zeus.data_block_db b h
      ∙ ground (arith, nat_beq_iff h h)

  pub at_head_stored :
      (s : Server platform) (b : DataBlock Tx) (h : ℕ)
      → contains_key h (insert_block (codec platform) s.data_plane.zeus.data_block_db b).meta ≡ true
      → IsStored h (insert_at_head platform s b)
  unfolding insert_at_head insert_non_head
  at_head_stored s b h k =
      let i = hash_envelope b.envelope in
      let p = b.envelope.parent_hash in
      let d = s.data_plane in
      meta_of_zeus s (insert_and_advance (codec platform) read_block d b i p)
        (insert_non_head (codec platform) d.zeus b i p) h
        (insert_and_advance-frame (codec platform) read_block d b i p) k

  pub bridge_stored :
      (s : Server platform) (b : DataBlock Tx) (h : ℕ)
      → contains_key h (insert_block (codec platform) s.data_plane.zeus.data_block_db b).meta ≡ true
      → IsStored h (insert_bridge platform s b)
  unfolding insert_bridge insert_non_head
  bridge_stored s b h k = k

  advance_stored :
      (s : Server platform) (h : ℕ) → IsStored h s → Gives (IsStored h) (advance_head platform s)
  unfolding advance_head
  advance_stored s h k =
      elim (Option-cases (advance_head_via_child_of (codec platform) read_block s.data_plane)) [
        | inl e ↦ rw (advance_head, e) tt
        | inr (d, e) ↦
            rw (advance_head, e)
              (meta_of_zeus s d s.data_plane.zeus h
                (advance_head_via_child_of-frame (codec platform) read_block s.data_plane d e) k)
      ]

  -- The last steps of the two cases that store the block.
  abbrev pub finish_head :
      (Server platform → Handled (Server platform) (Server platform))
      → Server platform
      → Handled (Server platform) (Server platform)
  finish_head d s = d s >>= λ t. ok (replay_at_head platform t)

  abbrev pub finish_bridge :
      (Server platform → Handled (Server platform) (Server platform))
      → Server platform
      → Handled (Server platform) (Server platform)
  finish_bridge d s = d s >>= λ t. advance_head platform t >>= λ u. ok (replay_at_head platform u)

  module _ (h : ℕ) (d : Server platform → Handled (Server platform) (Server platform))
      (keeps : (s : Server platform) → IsStored h s → Gives (IsStored h) (d s)) where
    pub finish_head_stored :
        (s : Server platform) → IsStored h s → Gives (IsStored h) (finish_head d s)
    unfolding replay_at_head drain_pending_attestations
    finish_head_stored s k =
        Gives-seq (IsStored h) (d s) (λ t. ok (replay_at_head platform t)) (keeps s k) (λ t j. j)

    pub finish_bridge_stored :
        (s : Server platform) → IsStored h s → Gives (IsStored h) (finish_bridge d s)
    unfolding replay_at_head drain_pending_attestations
    finish_bridge_stored s k =
        Gives-seq (IsStored h) (d s)
          (λ t. advance_head platform t >>= λ u. ok (replay_at_head platform u)) (keeps s k)
          (λ t j.
            Gives-seq (IsStored h) (advance_head platform t) (λ u. ok (replay_at_head platform u))
              (advance_stored t h j) (λ u i. i))

    parked_stored :
        (s : Server platform) (b : DataBlock Tx)
        → IsStored h s
        → IsStored h (park_block platform s b)
    unfolding park_block broadcast_data_request broadcast
    parked_stored s b k =
        elim (Bool-cases (nat_beq b.envelope.parent_hash (genesis_hash platform))) [
          | inl e ↦ simp (e, if◌then◌else◌) k
          | inr e ↦ simp (e, if◌then◌else◌) k
        ]

    admit_with_stored :
        (s : Server platform) (b : DataBlock Tx)
        → IsStored h s
        → Gives (IsStored h) (admit_with platform d s b)
    unfolding admit_with
    admit_with_stored s b k =
        Gives-if (IsStored h) (nat_beq b.envelope.parent_hash s.data_plane.head_hash) _ _
          (finish_head_stored (insert_at_head platform s b)
            (at_head_stored s b h (insert_keeps s b h k)))
          (Gives-if (IsStored h)
            (contains_key b.envelope.parent_hash s.data_plane.zeus.data_block_db.meta) _ _
            (finish_bridge_stored (insert_bridge platform s b)
              (bridge_stored s b h (insert_keeps s b h k)))
            (parked_stored s b k))

    admit_all_stored :
        (s : Server platform) (bs : List (DataBlock Tx))
        → IsStored h s
        → Gives (IsStored h) (admit_all platform d s bs)
    unfolding admit_all
    admit_all_stored s [] k = k
    admit_all_stored s (b ∷ bs) k =
        Gives-seq (IsStored h) (admit_with platform d s b) (λ t. admit_all platform d t bs)
          (admit_with_stored s b k) (λ t j. admit_all_stored t bs j)

  pub drain_stored :
      (h fuel : ℕ) (s : Server platform) → IsStored h s → Gives (IsStored h) (drain platform fuel s)
  unfolding drain take_parked
  drain_stored h zero s k = tt
  drain_stored h (suc fuel) s k =
      let i = s.data_plane.head_hash in
      let u = take_parked platform s i in
      elim (queue_cases (queue_at i s.pending_data_blocks)) [
        | inl f ↦ rw (drain, f) k
        | inr (b, cs, f) ↦
            rw (drain, f)
              (Gives-seq (IsStored h) (admit_all platform (drain platform fuel) u (b ∷ cs))
                (drain platform fuel)
                (admit_all_stored h (drain platform fuel) (drain_stored h fuel) u (b ∷ cs) k)
                (drain_stored h fuel))
      ]
