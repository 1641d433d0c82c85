-- ===== src/Zeus/Engine/Blocks/Equivocation.antt =====
-- consensus/src/server/zeus/phases/data.rs: the blame of a block next to one of an earlier eleader.
use leto_rs.Prelude.{
  ℕ, ◌≡◌, ◌≢◌, sym, true, false, some, List, [], ◌∷◌, ◌++◌, nat_eq, nat_beq, nat_beq_iff,
  if◌then◌else◌, lookup, Occurs, arith,
}
use mathlib.Core.Path.{subst}
use leto_rs.Prelude.Results.{◌>>=◌, or_panic, or_fail, Leaves}
use leto_rs.Leto.RoundContext.{queue_at, push}
use leto_rs.Zeus.Types.{DataBlock, equivocation, BlamePayload, two_blocks, EleaderBlame}
use leto_rs.Zeus.DataChain.{eleader, blame_signed_bytes, eleader_blame_valid}
use leto_rs.Zeus.DataChain.Blames.{IsSigned, eleader_blame_valid_lem}
use leto_rs.Zeus.Store.{get}
use leto_rs.Zeus.Engine.{Platform, Server, codec, crypto, broadcast}
use leto_rs.Zeus.Engine.Changing.{make_equivocation_blame, raise_blame}
use leto_rs.Zeus.Engine.Changing.Blocked.{StaysBlocked, Occurs-last, inserted, try_blocked}
use leto_rs.Zeus.Engine.Blocks.{is_acceptable, blame_equivocation, on_equivocation, on_data_propose}

module _ {Tx H T R S PublicKey : Type 0} (platform : Platform Tx H T R S PublicKey) where
  open platform use {hash_envelope, as_ref, sign, read_block}

  raised :
      (s : Server platform) (blame : EleaderBlame Tx)
      → (eleader_blame_valid
            (crypto platform)
            blame
            s.crypto_system
            (eleader blame.epoch s.data_plane.num_nodes)
          ≢ some true)
      → Leaves (StaysBlocked platform blame.epoch s) (raise_blame platform s blame)
  unfolding raise_blame broadcast push
  raised s blame x = try_blocked platform _ blame.epoch (
    blame,
    subst (Occurs blame)
        (sym (
          inserted platform blame.epoch (queue_at blame.epoch s.eleader_blames ++ blame ∷ [])
            s.eleader_blames))
        (Occurs-last platform blame (queue_at blame.epoch s.eleader_blames)),
    x,
  )

  -- A block that passes the first checks of `on_data_propose`, on a parent that has another child which
  -- the eleader of the new block's epoch did not sign, as one of an earlier epoch's eleader: where the
  -- server can sign, the block is neither admitted nor parked, the data plane with its chain and the
  -- parked blocks being as before, and the server puts a blame of the epoch among its own that is not
  -- valid; its epoch and its certificates stay as they are.
  pub old_child_blocks :
      (s : Server platform) (block old : DataBlock Tx) (sender existing : ℕ) (digest raw : List ℕ)
      → is_acceptable platform s block sender ≡ true
      → lookup block.envelope.parent_hash s.data_plane.zeus.child_of ≡ some existing
      → existing ≢ hash_envelope block.envelope
      → get (codec platform) read_block s.data_plane.zeus.data_block_db existing ≡ some old
      → ¬ (
          IsSigned
            (crypto platform)
            s.crypto_system
            (eleader block.envelope.epoch s.data_plane.num_nodes)
            (as_ref (hash_envelope old.envelope))
            old.sig.raw)
      → blame_signed_bytes
          (crypto platform)
          block.envelope.epoch
          equivocation
          (two_blocks block.envelope.height old block)
        ≡ some digest
      → sign digest ≡ some raw
      → Leaves
          (StaysBlocked platform block.envelope.epoch s)
          (on_data_propose platform s block sender)
  unfolding on_data_propose on_equivocation blame_equivocation make_equivocation_blame
  old_child_blocks s block old sender existing digest raw a e d g x f h =
      let epoch = block.envelope.epoch in
      let payload : BlamePayload Tx = two_blocks block.envelope.height old block in
      let blame : EleaderBlame Tx = record {
        epoch = epoch;
        reason = equivocation;
        payload = payload;
        signer = s.data_plane.my_id;
        sig_raw = raw;
      } in
      let other : nat_beq existing (hash_envelope block.envelope) ≡ false =
        ground (arith, d, nat_beq_iff existing (hash_envelope block.envelope)) in
      rw (a, if◌then◌else◌)
        (rw e (
          rw (other, if◌then◌else◌)
            (rw (on_equivocation, g)
              (rw (f, or_panic, ◌>>=◌)
                (rw (h, or_fail, ◌>>=◌)
                  (raised s blame (λ valid.
                    let (q, k, signed, (differ, height_a, height_b, sign_a, sign_b)) =
                      (eleader_blame_valid_lem (crypto platform) blame s.crypto_system
                          (eleader epoch s.data_plane.num_nodes)).0
                        valid in
                    x sign_a)))))))
