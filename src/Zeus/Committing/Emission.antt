-- ===== src/Zeus/Committing/Emission.antt =====
-- consensus/src/server/zeus/phases/commit.rs: what the committer emits.
use leto_rs.Prelude.{
  ℕ, ◌≡◌, ◌⊎◌, refl, sym, ap, ◌∙◌, inl, inr, Bool, true, List, [], ◌∷◌, ◌++◌, max, if◌then◌else◌,
  Bool-cases,
}
use mathlib.Core.Path.{subst}
use leto_rs.Zeus.Types.{DataBlock}
use leto_rs.Zeus.Committing.{
  CommitItem, Committer, Awaited, arrived, read_failed, never_written, TaskEnd, continuing,
  returned, waiting, follow, block_of, confirm, advance_emitted, emit, emit_items, spawn_committer,
}
use leto_rs.Zeus.Committing.Walks.{append_assoc, append_nil}

module _ {Tx : Type 0} where
  -- What is emitted for a payload: nothing for an empty one.
  abbrev pub emission : List Tx → List (List Tx)
  emission [] = []
  emission (tx ∷ txs) = (tx ∷ txs) ∷ []

  abbrev pub payloads : List (DataBlock Tx) → List (List Tx)
  payloads [] = []
  payloads (b ∷ bs) = emission b.envelope.payload ++ payloads bs

  -- The greatest height of the blocks, and of a first one.
  abbrev pub top_height : ℕ → List (DataBlock Tx) → ℕ
  top_height h [] = h
  top_height h (b ∷ bs) = top_height (max h b.envelope.height) bs

-- The committer has emitted the payloads of the blocks, up to their greatest height, and stands so.
pub record HasEmitted {Tx : Type 0} (c : Committer Tx) (bs : List (DataBlock Tx)) (e : TaskEnd)
    (r : Committer Tx × TaskEnd) : Type 0 where
  pub ends : r.1 ≡ e
  pub still_open : r.0.is_open ≡ true
  pub emitted : r.0.tx_data_commit ≡ c.tx_data_commit ++ payloads bs
  pub height : r.0.emitted_high ≡ top_height c.emitted_high bs

HasEmitted-nil :
    {Tx : Type 0} (c : Committer Tx) (e : TaskEnd) → c.is_open ≡ true → HasEmitted c [] e (c, e)
HasEmitted-nil c e o = record {
  ends = refl;
  still_open = o;
  emitted = sym (append_nil c.tx_data_commit);
  height = refl;
}

Awaited-cases :
    {A : Type 0} (w : Awaited A)
    → (w ≡ never_written) ⊎ ((w ≡ read_failed) ⊎ ((a : A) × (w ≡ arrived a)))
Awaited-cases never_written = inl refl
Awaited-cases read_failed = inr (inl refl)
Awaited-cases (arrived a) = inr (inr (a, refl))

follow-ext :
    {A : Type 0} (r : A × TaskEnd) (f g : A → A × TaskEnd)
    → ((a : A) → f a ≡ g a)
    → follow r f ≡ follow r g
follow-ext (a, continuing) f g h = h a
follow-ext (a, returned) f g h = refl
follow-ext (a, waiting) f g h = refl

module _ {Tx : Type 0} (emit_dp : Bool) (read : ℕ → Awaited (DataBlock Tx)) where
  -- The blocks of the items in front of the first one whose key is never written, without those whose
  -- read fails.
  abbrev pub reached : List (CommitItem Tx) → List (DataBlock Tx)
  reached [] = []
  reached (item ∷ items) = elim (block_of emit_dp read item) [
    | never_written ↦ []
    | read_failed ↦ reached items
    | arrived b ↦ b ∷ reached items
  ]

  -- Whether there is an item whose key is never written.
  abbrev pub end_of : List (CommitItem Tx) → TaskEnd
  end_of [] = continuing
  end_of (item ∷ items) = elim (block_of emit_dp read item) [
    | never_written ↦ waiting
    | read_failed ↦ end_of items
    | arrived b ↦ end_of items
  ]

  abbrev pub all_items : List (List (CommitItem Tx)) → List (CommitItem Tx)
  all_items [] = []
  all_items (items ∷ lists) = items ++ all_items lists

  emit_payload :
      (c : Committer Tx) (payload : List Tx) (height : ℕ)
      → c.is_open ≡ true
      → let r = emit emit_dp read c payload height in
        (r.1 ≡ true)
        × (r.0.is_open ≡ true)
        × (r.0.tx_data_commit ≡ c.tx_data_commit ++ emission payload)
        × (r.0.emitted_high ≡ max c.emitted_high height)
  unfolding emit confirm advance_emitted
  emit_payload c [] height o = (refl, o, sym (append_nil c.tx_data_commit), refl)
  emit_payload c (tx ∷ txs) height o = rw (o, if◌then◌else◌) (refl, refl, refl, refl)

  emit_items-HasEmitted :
      (c : Committer Tx) (items : List (CommitItem Tx))
      → c.is_open ≡ true
      → HasEmitted c (reached items) (end_of items) (emit_items emit_dp read c items)
  unfolding emit_items
  emit_items-HasEmitted c [] o = HasEmitted-nil c continuing o
  emit_items-HasEmitted c (item ∷ items) o = elim (Awaited-cases (block_of emit_dp read item)) [
    | inl e ↦ rw (e, reached, end_of, emit_items) (HasEmitted-nil c waiting o)
    | inr (inl e) ↦ rw (e, reached, end_of, emit_items) (emit_items-HasEmitted c items o)
    | inr (inr (b, e)) ↦
        let (g, s, x, h) = emit_payload c b.envelope.payload b.envelope.height o in
        let d = (emit emit_dp read c b.envelope.payload b.envelope.height).0 in
        let k = emit_items-HasEmitted d items s in
        rw (e, reached, end_of, emit_items)
          (rw (g, if◌then◌else◌)
            (record {
              ends = k.ends;
              still_open = k.still_open;
              emitted =
                  k.emitted
                  ∙ ap (λ l. l ++ payloads (reached items)) x
                  ∙ append_assoc c.tx_data_commit (emission b.envelope.payload)
                      (payloads (reached items));
              height = k.height ∙ ap (λ n. top_height n (reached items)) h;
            }))
  ]

  -- A list behind another one is taken where the first one is through.
  emit_items-append :
      (c : Committer Tx) (items more : List (CommitItem Tx))
      → emit_items emit_dp read c (items ++ more)
        ≡ follow (emit_items emit_dp read c items) (λ d. emit_items emit_dp read d more)
  unfolding emit_items
  emit_items-append c [] more = refl
  emit_items-append c (item ∷ items) more = elim (Awaited-cases (block_of emit_dp read item)) [
    | inl e ↦ rw (e, emit_items) refl
    | inr (inl e) ↦ rw (e, emit_items) (emit_items-append c items more)
    | inr (inr (b, e)) ↦
        let r = emit emit_dp read c b.envelope.payload b.envelope.height in
        elim (Bool-cases r.1) [
          | inl f ↦ rw (e, emit_items) (rw (f, if◌then◌else◌) (emit_items-append r.0 items more))
          | inr f ↦ rw (e, emit_items) (rw (f, if◌then◌else◌) refl)
        ]
  ]

  spawn_committer-emit_items :
      (c : Committer Tx) (lists : List (List (CommitItem Tx)))
      → spawn_committer emit_dp read c lists ≡ emit_items emit_dp read c (all_items lists)
  unfolding spawn_committer emit_items
  spawn_committer-emit_items c [] = refl
  spawn_committer-emit_items c (items ∷ lists) =
      follow-ext (emit_items emit_dp read c items) (λ d. spawn_committer emit_dp read d lists)
        (λ d. emit_items emit_dp read d (all_items lists)) (λ d. spawn_committer-emit_items d lists)
      ∙ sym (emit_items-append c items (all_items lists))

  -- While the application receives, the committer handles the items that are handed over in their order,
  -- over all lists, up to the first spilled one whose key is never written: it emits the payloads of
  -- their blocks, without the empty ones and without the spilled ones whose read fails, and
  -- `emitted_high` becomes the greatest height of those blocks, where it was lower. Where there is an
  -- item whose key is never written, it waits there for ever and emits nothing behind it; otherwise
  -- it is ready for the next list.
  pub spawn_committer_lem :
      (c : Committer Tx) (lists : List (List (CommitItem Tx)))
      → c.is_open ≡ true
      → HasEmitted c
          (reached (all_items lists))
          (end_of (all_items lists))
          (spawn_committer emit_dp read c lists)
  spawn_committer_lem c lists o =
      subst (HasEmitted c (reached (all_items lists)) (end_of (all_items lists)))
        (sym (spawn_committer-emit_items c lists)) (emit_items-HasEmitted c (all_items lists) o)
