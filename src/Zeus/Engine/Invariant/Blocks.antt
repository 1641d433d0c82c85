-- ===== src/Zeus/Engine/Invariant/Blocks.antt =====
-- consensus/src/server/zeus/phases/data.rs: the handlers of data blocks keep the state sound, and
-- none of their loops runs out of fuel.
use leto_rs.Prelude.{
  ℕ, ◌<◌, inl, inr, Bool, true, false, List, [], ◌∷◌, nat_eq, nat_beq, if◌then◌else◌, lookup,
  Option-cases,
}
use leto_rs.Prelude.Results.{
  Handled, ok, failed, panicked, out_of_fuel, ◌>>=◌, or_panic, or_fail, logged, Leaves, Leaves-if,
  Leaves-seq, Leaves-or_fail, Leaves-option, Leaves-logged,
}
use leto_rs.Zeus.Types.{
  DataBlock, DataBlockEnvelope, BlamePayload, two_blocks, equivocation, EleaderBlame,
}
use leto_rs.Zeus.Messages.{data_response}
use leto_rs.Zeus.DataChain.{Cursor, blame_signed_bytes}
use leto_rs.Zeus.DataChain.Prefix.{conflicts_data_prefix_lem}
use leto_rs.Zeus.Store.{get}
use leto_rs.Zeus.Engine.{Platform, Server, codec, crypto, send, loop_back}
use leto_rs.Zeus.Engine.Signing.{handle_new_sig_round}
use leto_rs.Zeus.Engine.Changing.{make_equivocation_blame}
use leto_rs.Zeus.Engine.Admission.{admit_data_block}
use leto_rs.Zeus.Engine.Blocks.{
  note_proposed, on_eleader_propose, wake, admit_and_wake, blame_equivocation, on_equivocation,
  admit_unless_conflict, is_acceptable, on_data_propose, on_data_request, is_acceptable_response,
  on_data_response,
}
use leto_rs.Zeus.Engine.Invariant.{Config, Holds, Holds-core}
use leto_rs.Zeus.Engine.Invariant.Signing.{handle_new_sig_round-Keeps, send-core}
use leto_rs.Zeus.Engine.Invariant.Changing.{raise_blame-Keeps}
use leto_rs.Zeus.Engine.Invariant.Draining.{admit_data_block-Keeps}

module _ {Tx H T R S PublicKey : Type 0} (platform : Platform Tx H T R S PublicKey) (rank : ℕ → ℕ)
    (config : Config PublicKey) where
  open platform use {hash_envelope, as_ref, sign, read_block}

  abbrev Sound : Server platform → Type 0
  Sound = Holds platform rank config

  abbrev Keeps : Handled (Server platform) (Server platform) → Type 0
  Keeps = Leaves (Holds platform rank config)

  pub on_eleader_propose-Keeps :
      (s : Server platform) (payload : List Tx)
      → Sound s
      → Keeps (on_eleader_propose platform s payload)
  unfolding on_eleader_propose note_proposed loop_back
  on_eleader_propose-Keeps s [] v = v
  on_eleader_propose-Keeps s (tx ∷ txs) v =
      Leaves-or_fail Sound s (sign (as_ref (hash_envelope _))) _ v (λ raw e. v)

  wake-Keeps : (s : Server platform) → Sound s → Keeps (wake platform s)
  unfolding wake
  wake-Keeps s v =
      let t = record s { data_plane = record s.data_plane { rleader_wakeup_pending = false } } in
      Leaves-if Sound s.data_plane.rleader_wakeup_pending (logged (handle_new_sig_round platform t))
        (ok s)
        (λ e.
          Leaves-logged Sound (handle_new_sig_round platform t)
            (handle_new_sig_round-Keeps platform rank config t v))
        (λ e. v)

  blame_equivocation-Keeps :
      (s : Server platform) (m : Handled (Server platform) (EleaderBlame Tx))
      → Sound s
      → Leaves Sound (m >>= λ blame. ok s)
      → Keeps (blame_equivocation platform s m)
  unfolding blame_equivocation
  blame_equivocation-Keeps s (ok blame) v k = raise_blame-Keeps platform rank config s blame v
  blame_equivocation-Keeps s (failed t) v k = k
  blame_equivocation-Keeps s panicked v k = tt
  blame_equivocation-Keeps s out_of_fuel v k = k

  make_blame-Keeps :
      (s : Server platform) (epoch height : ℕ) (a b : DataBlock Tx)
      → Sound s
      → Leaves Sound (make_equivocation_blame platform s epoch height a b >>= λ blame. ok s)
  unfolding make_equivocation_blame
  make_blame-Keeps s epoch height a b v =
      let payload : BlamePayload Tx = two_blocks height a b in
      elim (Option-cases (blame_signed_bytes (crypto platform) epoch equivocation payload)) [
        | inl e ↦ rw (e, or_panic, ◌>>=◌) tt
        | inr (digest, e) ↦ elim (Option-cases (sign digest)) [
          | inl f ↦ rw (e, or_panic, ◌>>=◌) (rw (f, or_fail, ◌>>=◌) v)
          | inr (raw, f) ↦ rw (e, or_panic, ◌>>=◌) (rw (f, or_fail, ◌>>=◌) v)
        ]
      ]

  on_equivocation-Keeps :
      (s : Server platform) (b : DataBlock Tx) (existing : ℕ)
      → Sound s
      → Keeps (on_equivocation platform s b existing)
  unfolding on_equivocation
  on_equivocation-Keeps s b existing v =
      Leaves-option Sound (get (codec platform) read_block s.data_plane.zeus.data_block_db existing)
        (ok s)
        (λ c.
          blame_equivocation platform s
            (make_equivocation_blame platform s b.envelope.epoch b.envelope.height c b))
        (λ e. v)
        (λ c e.
          blame_equivocation-Keeps s
            (make_equivocation_blame platform s b.envelope.epoch b.envelope.height c b) v
            (make_blame-Keeps s b.envelope.epoch b.envelope.height c b v))

  pub on_data_request-Keeps :
      (s : Server platform) (target source : ℕ)
      → Sound s
      → Keeps (on_data_request platform s target source)
  unfolding on_data_request
  on_data_request-Keeps s target source v =
      Leaves-option Sound (get (codec platform) read_block s.data_plane.zeus.data_block_db target)
        (ok s) (λ b. ok (send platform s source (data_response b))) (λ e. v)
        (λ b e.
          Holds-core platform rank config s (send platform s source (data_response b))
            (send-core platform s source (data_response b)) v)

  module _
      (rank_lem : (e : DataBlockEnvelope Tx) → rank e.parent_hash < rank (hash_envelope e)) where
    admit_and_wake-Keeps :
        (s : Server platform) (b : DataBlock Tx) → Sound s → Keeps (admit_and_wake platform s b)
    unfolding admit_and_wake
    admit_and_wake-Keeps s b v =
        Leaves-seq Sound (admit_data_block platform s b) (wake platform)
          (admit_data_block-Keeps platform rank config rank_lem s b v) wake-Keeps

    decided-Keeps :
        (s : Server platform) (b : DataBlock Tx) (conflict : Bool)
        → Sound s
        → Keeps (elim conflict [ true ↦ ok s | false ↦ admit_and_wake platform s b ])
    decided-Keeps s b true v = v
    decided-Keeps s b false v = admit_and_wake-Keeps s b v

    admit_unless_conflict-Keeps :
        (s : Server platform) (b : DataBlock Tx)
        → Sound s
        → Keeps (admit_unless_conflict platform s b)
    unfolding admit_unless_conflict
    admit_unless_conflict-Keeps s b v =
        let d : Cursor = record {
          cur_hash = hash_envelope b.envelope;
          cur_height = b.envelope.height;
          cur_parent = b.envelope.parent_hash;
        } in
        let (c, e, i) =
          conflicts_data_prefix_lem rank s.data_plane.zeus.data_block_db.meta d
            s.data_plane.zeus.commit_lock v.ranked (rank_lem b.envelope) in
        rw (admit_unless_conflict, e) (decided-Keeps s b c v)

    pub on_data_propose-Keeps :
        (s : Server platform) (b : DataBlock Tx) (sender : ℕ)
        → Sound s
        → Keeps (on_data_propose platform s b sender)
    unfolding on_data_propose
    on_data_propose-Keeps s b sender v =
        Leaves-if Sound (is_acceptable platform s b sender) _ (ok s)
          (λ e.
            Leaves-option Sound (lookup b.envelope.parent_hash s.data_plane.zeus.child_of)
              (admit_unless_conflict platform s b)
              (λ c.
                if nat_beq c (hash_envelope b.envelope)
                then admit_unless_conflict platform s b
                else on_equivocation platform s b c)
              (λ f. admit_unless_conflict-Keeps s b v)
              (λ c f.
                Leaves-if Sound (nat_beq c (hash_envelope b.envelope)) _ _
                  (λ g. admit_unless_conflict-Keeps s b v) (λ g. on_equivocation-Keeps s b c v)))
          (λ e. v)

    pub on_data_response-Keeps :
        (s : Server platform) (b : DataBlock Tx) → Sound s → Keeps (on_data_response platform s b)
    unfolding on_data_response
    on_data_response-Keeps s b v =
        Leaves-if Sound (is_acceptable_response platform s b) _ (ok s)
          (λ e.
            Leaves-option Sound (lookup b.envelope.parent_hash s.data_plane.zeus.child_of)
              (admit_and_wake platform s b)
              (λ c.
                if nat_beq c (hash_envelope b.envelope) then admit_and_wake platform s b else ok s)
              (λ f. admit_and_wake-Keeps s b v)
              (λ c f.
                Leaves-if Sound (nat_beq c (hash_envelope b.envelope)) _ _
                  (λ g. admit_and_wake-Keeps s b v) (λ g. v)))
          (λ e. v)
