-- ===== src/Hera/MultiDataChain/Untyped.antt =====
-- consensus/src/server/hera/chain_state/multi_data_chain.rs: `admit`, which repeats `admit_typed` with a
-- result of its own.
use leto_rs.Prelude.{
  ◌>>=◌, ℕ, ◌≡◌, refl, inl, inr, Option, none, some, nat_eq, nat_beq, if◌then◌else◌, lookup,
  contains_key, Bool-cases, Option-cases,
}
use leto_rs.Zeus.Types.{DataBlock}
use leto_rs.Leto.RoundContext.{push}
use leto_rs.Hera.MultiDataChain.{
  MultiAuthorDataChainState, Hashing, AdmitTypedResult, extended, bridge, parked, duplicate,
  invalid, genesis_hash, link, set_head, advance_head_via_child_of, drain_pending_for_author,
  extend, bridge_over, admit_typed,
}

-- `Parked` has a hash that lost its type.
data AdmitResult : Type 0 where
  was_extended : AdmitResult
  was_bridge : AdmitResult
  was_parked : ℕ → AdmitResult
  was_duplicate : AdmitResult
  was_invalid : AdmitResult

module _ {Tx : Type 0} where
  unfoldable head_hash : MultiAuthorDataChainState Tx → ℕ → Option ℕ
  head_hash s author = lookup author s.heads

  unfoldable get_block : MultiAuthorDataChainState Tx → ℕ → Option (DataBlock Tx)
  get_block s hash = lookup hash s.block_store

module _ {Tx : Type 0} (hashing : Hashing Tx) where
  open hashing use {hash}

  -- `admit`; `none` is a panic or a loop out of fuel.
  unfoldable admit :
      MultiAuthorDataChainState Tx
      → DataBlock Tx
      → Option (AdmitResult × MultiAuthorDataChainState Tx)
  admit s block =
      let author = block.sig.signer in
      let block_hash = hash block.envelope in
      let parent_hash = block.envelope.parent_hash in
      if contains_key block_hash s.block_store
      then some (was_duplicate, s)
      else elim (lookup author s.heads) [
        | none ↦ some (was_invalid, s)
        | some head ↦
            if nat_beq parent_hash head
            then (do
              t ←
                  drain_pending_for_author hashing
                    (set_head hashing (link hashing s block) author block_hash
                      block.envelope.height)
                    author
              some (was_extended, t))
            else if contains_key parent_hash s.block_store
            then (do
              t ← advance_head_via_child_of hashing (link hashing s block) author
              cur_height ← lookup author t.heights
              u ← drain_pending_for_author hashing t author
              some (was_bridge, u))
            else if nat_beq parent_hash (genesis_hash hashing)
            then some (was_invalid, s)
            else some (
              was_parked block_hash,
              record s { pending_data_blocks = push parent_hash block s.pending_data_blocks },
            )
      ]

  -- A result of `admit_typed` as one of `admit`.
  abbrev untyped : DataBlock Tx → AdmitTypedResult → AdmitResult
  untyped block extended = was_extended
  untyped block bridge = was_bridge
  untyped block (parked parent_hash) = was_parked (hash block.envelope)
  untyped block duplicate = was_duplicate
  untyped block invalid = was_invalid

  unfoldable relabel :
      Option (AdmitTypedResult × MultiAuthorDataChainState Tx)
      → DataBlock Tx
      → Option (AdmitResult × MultiAuthorDataChainState Tx)
  relabel o block = do (r, t) ← o; some (untyped block r, t)

  extend_relabelled :
      (s : MultiAuthorDataChainState Tx) (author : ℕ) (block : DataBlock Tx)
      → (do
        t ←
            drain_pending_for_author hashing
              (set_head hashing
                (link hashing s block)
                author
                (hash block.envelope)
                block.envelope.height)
              author
        some (was_extended, t))
        ≡ relabel (extend hashing s author block) block
  unfolding extend relabel
  extend_relabelled s author block =
      let start =
        set_head hashing (link hashing s block) author (hash block.envelope)
          block.envelope.height in
      elim (Option-cases (drain_pending_for_author hashing start author)) [
        | inl e ↦ rw e refl
        | inr (t, e) ↦ rw e refl
      ]

  bridge_relabelled :
      (s : MultiAuthorDataChainState Tx) (author : ℕ) (block : DataBlock Tx)
      → (do
        t ← advance_head_via_child_of hashing (link hashing s block) author
        cur_height ← lookup author t.heights
        u ← drain_pending_for_author hashing t author
        some (was_bridge, u))
        ≡ relabel (bridge_over hashing s author block) block
  unfolding bridge_over relabel
  bridge_relabelled s author block =
      elim (Option-cases (advance_head_via_child_of hashing (link hashing s block) author)) [
        | inl e ↦ rw e refl
        | inr (t, e) ↦ elim (Option-cases (lookup author t.heights)) [
          | inl f ↦ rw e (rw f refl)
          | inr (n, f) ↦ elim (Option-cases (drain_pending_for_author hashing t author)) [
            | inl g ↦ rw e (rw f (rw g refl))
            | inr (u, g) ↦ rw e (rw f (rw g refl))
          ]
        ]
      ]

  -- `admit` does to the state what `admit_typed` does, panics where it does, and has the same result, but
  -- that it gives the hash of a parked block in place of the missing parent's.
  admit-admit_typed :
      (s : MultiAuthorDataChainState Tx) (block : DataBlock Tx)
      → admit s block ≡ relabel (admit_typed hashing s block) block
  unfolding admit admit_typed relabel
  admit-admit_typed s block =
      let h = hash block.envelope in
      let p = block.envelope.parent_hash in
      elim (Bool-cases (contains_key h s.block_store)) [
        | inl e ↦ rw (e, if◌then◌else◌) refl
        | inr e ↦ elim (Option-cases (lookup block.sig.signer s.heads)) [
          | inl f ↦ rw (e, if◌then◌else◌) (rw f refl)
          | inr (head, f) ↦ elim (Bool-cases (nat_beq p head)) [
            | inl g ↦
                rw (e, if◌then◌else◌)
                  (rw f (rw (g, if◌then◌else◌) (extend_relabelled s block.sig.signer block)))
            | inr g ↦ elim (Bool-cases (contains_key p s.block_store)) [
              | inl k ↦
                  rw (e, if◌then◌else◌)
                    (rw f (rw (g, k, if◌then◌else◌) (bridge_relabelled s block.sig.signer block)))
              | inr k ↦ elim (Bool-cases (nat_beq p (genesis_hash hashing))) [
                | inl l ↦ rw (e, if◌then◌else◌) (rw f (rw (g, k, l, if◌then◌else◌) refl))
                | inr l ↦ rw (e, if◌then◌else◌) (rw f (rw (g, k, l, if◌then◌else◌) refl))
              ]
            ]
          ]
        ]
      ]
