-- ===== src/Zeus/Engine/Invariant/Admission.antt =====
-- consensus/src/server/zeus/phases/data.rs: admissions keep the state sound, and park one block at
-- most.
use leto_rs.Prelude.{
  refl, ℕ, suc, ◌+◌, ◌≤◌, ◌<◌, ◌≡◌, sym, ap, inl, inr, List, [], ◌∷◌, nat_eq, nat_beq, nat_beq_iff,
  if◌then◌else◌, contains_key, lookup-insert, length, Bool-cases, eq_of_some, arith,
}
use mathlib.Core.Path.{subst}
use leto_rs.Prelude.Results.{
  Handled, ok, ◌>>=◌, Leaves, Leaves-if, Leaves-bind, Leaves-seq, Leaves-map,
}
use leto_rs.Zeus.Types.{DataBlock, DataBlockEnvelope}
use leto_rs.Zeus.Committing
use leto_rs.Zeus.Committing.{ZeusState, insert_non_head}
use leto_rs.Zeus.Store.Index.{insert_block-IsRanked}
use leto_rs.Zeus.Admitting.{DataState, insert_and_advance}
use leto_rs.Zeus.Admitting.Frames.{frame, insert_and_advance-frame, advance_head_via_child_of-frame}
use leto_rs.Zeus.Admitting.Heads.{advance_head_via_child_of_lem}
use leto_rs.Zeus.Engine.{Platform, Server, codec, broadcast, broadcast_data_request}
use leto_rs.Zeus.Engine.Admission.{
  parked_count, genesis_hash, drain_pending_attestations, replay_at_head, insert_at_head,
  insert_bridge, advance_head, park_block, admit_with, admit_all,
}
use leto_rs.Zeus.Engine.Invariant.{Reached-step, Config, core, IsSound, Holds}
use leto_rs.Zeus.Engine.Invariant.Parking.{push-count, push-IsParked}

module _ {Tx H T R S PublicKey : Type 0} (platform : Platform Tx H T R S PublicKey) (rank : ℕ → ℕ)
    (config : Config PublicKey)
    (rank_lem : (e : DataBlockEnvelope Tx)
      → rank e.parent_hash < rank (platform.hash_envelope e)) where
  open platform use {hash_envelope, read_block}

  -- The state is sound and has at most so many parked blocks.
  abbrev pub Kept : ℕ → Server platform → Type 0
  Kept n s = Holds platform rank config s × (parked_count s.pending_data_blocks ≤ n)

  pub Kept_more :
      (m n : ℕ) (r : Handled (Server platform) (Server platform))
      → m ≤ n
      → Leaves (Kept m) r
      → Leaves (Kept n) r
  Kept_more m n r l = Leaves-map (Kept m) (Kept n) (λ s (v, c). (v, omega (arith, l, c))) r

  -- The state with another data plane of the same epoch.
  framed :
      (s : Server platform) (d : DataState Tx R) (zeus : ZeusState Tx)
      → frame d ≡ (zeus, (s.data_plane.current_epoch, s.data_plane.num_nodes))
      → IsSound platform rank config (record (core platform s) { zeus = zeus })
      → Holds platform rank config (record s { data_plane = d })
  framed s d zeus e v =
      subst (IsSound platform rank config)
        (sym (
          ap
            (λ f. record {
              zeus = f.0;
              pending = s.pending_data_blocks;
              admitted = s.admitted_change_qcs;
              current_epoch = f.1.0;
              config = record {
                system = s.crypto_system;
                num_faults = s.num_faults;
                num_nodes = f.1.1;
              };
            })
            e))
        v

  -- The insertion of a block with its link.
  linked :
      (s : Server platform) (b : DataBlock Tx)
      → Holds platform rank config s
      → IsSound platform rank config (record (core platform s) {
        zeus =
            insert_non_head
              (codec platform)
              s.data_plane.zeus
              b
              (hash_envelope b.envelope)
              b.envelope.parent_hash;
      })
  unfolding insert_non_head Committing.step
  linked s b v =
      let h = hash_envelope b.envelope in
      let p = b.envelope.parent_hash in
      record {
        ranked =
            insert_block-IsRanked (codec platform) rank rank_lem s.data_plane.zeus.data_block_db b
              v.ranked;
        climbing = λ q c e. elim (Bool-cases (nat_beq p q)) [
          | inl same ↦
              let k : h ≡ c =
                eq_of_some h c
                  (ground (arith, same, e, lookup-insert q p h s.data_plane.zeus.child_of)) in
              omega (arith, rank_lem b.envelope, ap rank k, ap rank ((nat_beq_iff p q).0 same))
          | inr other ↦
              v.climbing q c
                (ground (arith, other, e, lookup-insert q p h s.data_plane.zeus.child_of))
        ];
        waiting = v.waiting;
        changes = v.changes;
        reached = v.reached;
        history = Reached-step platform s.data_plane.zeus _ (Committing.admitted b) refl v.history;
        configured = v.configured;
      }

  insert_at_head-Holds :
      (s : Server platform) (b : DataBlock Tx)
      → Holds platform rank config s
      → Holds platform rank config (insert_at_head platform s b)
  unfolding insert_at_head
  insert_at_head-Holds s b v =
      framed s
        (insert_and_advance (codec platform) read_block s.data_plane b (hash_envelope b.envelope)
          b.envelope.parent_hash)
        (insert_non_head (codec platform) s.data_plane.zeus b (hash_envelope b.envelope)
          b.envelope.parent_hash)
        (insert_and_advance-frame (codec platform) read_block s.data_plane b
          (hash_envelope b.envelope) b.envelope.parent_hash)
        (linked s b v)

  insert_bridge-Holds :
      (s : Server platform) (b : DataBlock Tx)
      → Holds platform rank config s
      → Holds platform rank config (insert_bridge platform s b)
  unfolding insert_bridge
  insert_bridge-Holds s b v = linked s b v

  advance_head-Keeps :
      (s : Server platform) (n : ℕ) → Kept n s → Leaves (Kept n) (advance_head platform s)
  unfolding advance_head
  advance_head-Keeps s n (v, c) =
      let (bs, last, top, d, e, p, a) =
        advance_head_via_child_of_lem (codec platform) read_block rank s.data_plane v.climbing in
      rw (advance_head, e)
        (
          framed s d s.data_plane.zeus
              (advance_head_via_child_of-frame (codec platform) read_block s.data_plane d e) v,
          c,
        )

  replayed : (s : Server platform) (n : ℕ) → Kept n s → Kept n (replay_at_head platform s)
  unfolding replay_at_head drain_pending_attestations
  replayed s n k = k

  park_block-Kept :
      (s : Server platform) (b : DataBlock Tx) (n : ℕ)
      → Kept n s
      → Kept (suc n) (park_block platform s b)
  unfolding park_block broadcast_data_request broadcast
  park_block-Kept s b n (v, c) =
      let p = b.envelope.parent_hash in
      elim (Bool-cases (nat_beq p (genesis_hash platform))) [
        | inl e ↦ simp (e, if◌then◌else◌) (v, omega (arith, c))
        | inr e ↦
            simp (e, if◌then◌else◌)
              (
                record {
                  ranked = v.ranked;
                  climbing = v.climbing;
                  waiting = push-IsParked b s.pending_data_blocks v.waiting;
                  changes = v.changes;
                  reached = v.reached;
                  history = v.history;
                  configured = v.configured;
                },
                omega (arith, c, push-count p b s.pending_data_blocks),
              )
      ]

  -- The loop ends well on fewer parked blocks than the bound.
  abbrev pub IsTotal : ℕ → (Server platform → Handled (Server platform) (Server platform)) → Type 0
  IsTotal bound d = (s : Server platform) (n : ℕ) → Kept n s → n < bound → Leaves (Kept n) (d s)

  module _ (bound : ℕ) (d : Server platform → Handled (Server platform) (Server platform))
      (total : IsTotal bound d) where
    extended_head :
        (s : Server platform) (b : DataBlock Tx) (n : ℕ)
        → Kept n s
        → n < bound
        → Leaves (Kept n) (d (insert_at_head platform s b) >>= λ t. ok (replay_at_head platform t))
    unfolding insert_at_head
    extended_head s b n (v, c) l =
        Leaves-seq (Kept n) (d (insert_at_head platform s b)) (λ t. ok (replay_at_head platform t))
          (total (insert_at_head platform s b) n (insert_at_head-Holds s b v, c) l)
          (λ t k. replayed t n k)

    bridged :
        (s : Server platform) (b : DataBlock Tx) (n : ℕ)
        → Kept n s
        → n < bound
        → Leaves (Kept n) (
            d (insert_bridge platform s b) >>= λ t.
            advance_head platform t >>= λ u. ok (replay_at_head platform u))
    unfolding insert_bridge
    bridged s b n (v, c) l =
        Leaves-seq (Kept n) (d (insert_bridge platform s b))
          (λ t. advance_head platform t >>= λ u. ok (replay_at_head platform u))
          (total (insert_bridge platform s b) n (insert_bridge-Holds s b v, c) l)
          (λ t k.
            Leaves-seq (Kept n) (advance_head platform t) (λ u. ok (replay_at_head platform u))
              (advance_head-Keeps t n k) (λ u j. replayed u n j))

    -- A block on the head leaves no more blocks parked.
    pub admit_at_head :
        (s : Server platform) (b : DataBlock Tx) (n : ℕ)
        → Kept n s
        → n < bound
        → b.envelope.parent_hash ≡ s.data_plane.head_hash
        → Leaves (Kept n) (admit_with platform d s b)
    unfolding admit_with
    admit_at_head s b n k l e =
        rw ((nat_beq_iff b.envelope.parent_hash s.data_plane.head_hash).1 e, if◌then◌else◌)
          (extended_head s b n k l)

    -- Another one leaves at most one more parked.
    pub admit_with-Keeps :
        (s : Server platform) (b : DataBlock Tx) (n : ℕ)
        → Kept n s
        → n < bound
        → Leaves (Kept (suc n)) (admit_with platform d s b)
    unfolding admit_with
    admit_with-Keeps s b n k l =
        Leaves-if (Kept (suc n)) (nat_beq b.envelope.parent_hash s.data_plane.head_hash) _ _
          (λ e. Kept_more n (suc n) _ (omega arith) (extended_head s b n k l))
          (λ e.
            Leaves-if (Kept (suc n))
              (contains_key b.envelope.parent_hash s.data_plane.zeus.data_block_db.meta) _ _
              (λ f. Kept_more n (suc n) _ (omega arith) (bridged s b n k l))
              (λ f. park_block-Kept s b n k))

    pub admit_all-Keeps :
        (s : Server platform) (bs : List (DataBlock Tx)) (n m : ℕ)
        → Kept n s
        → n + length bs ≤ m
        → m ≤ bound
        → Leaves (Kept m) (admit_all platform d s bs)
    unfolding admit_all
    admit_all-Keeps s [] n m (v, c) l h = (v, omega (arith, c, l))
    admit_all-Keeps s (b ∷ bs) n m k l h =
        Leaves-bind (Kept (suc n)) (Kept m) (admit_with platform d s b)
          (λ t. admit_all platform d t bs) (admit_with-Keeps s b n k (omega (arith, l, h)))
          (λ t (v, c). (v, omega (arith, c, l)))
          (λ t j. admit_all-Keeps t bs (suc n) m j (omega (arith, l)) h)
