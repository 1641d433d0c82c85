-- ===== src/Leto/Engine/Invariant/Running.antt =====
-- consensus/src/server/leto/core.rs: the loop of the server keeps the invariant, and when it panics.
use leto_rs.Prelude.{
  ℕ, ◌≡◌, refl, sym, ◌∙◌, inl, inr, ◌&&◌, some, List, [], ◌∷◌, nat_eq, nat_beq, All, All-append,
  Bool-cases, Option-cases, arith,
}
use mathlib.Core.Path.{subst}
use leto_rs.Prelude.Results.{Handled, ok, failed, panicked, out_of_fuel, ◌>>=◌, Ends}
use leto_rs.Types.{
  Signature, Proposal, ProtocolMsg, propose, relay, blame, blame_qc, batch_request, batch_response,
  element_request, element_response,
}
use leto_rs.ChainDb.Contents.{IsCollisionFree}
use leto_rs.ChainDb.Growth.{IsAddressed, Grows, write_serialized-Grows}
use leto_rs.Leto.RoundContext.{RoundContext, msg_round, sync}
use leto_rs.Leto.RoundContext.Delivery.{IsSynced}
use leto_rs.Leto.RoundContext.Frames.{SameRound, sync-SameRound, sync_keeps, sync_panics}
use leto_rs.Leto.RoundContext.Contents.{Carries, Carries-weaken, All-weaken, sync-Carries}
use leto_rs.Leto.ChainState.{get_qc, get_element, write_batch_ref}
use leto_rs.Leto.ChainState.Elements.{get_highest}
use leto_rs.Leto.Synchronizer.{Synchronizer}
use leto_rs.Leto.Synchronizer.Delivery.{
  IsReady, IsReady-Grows, LetsThrough, IsSynchronized, sync_msg_lem,
}
use leto_rs.Leto.Engine.{Platform, Server, current_round}
use leto_rs.Leto.Engine.Loop.{
  round_sync, take_outer, take_loopback, restored, synchronize, on_net_msg,
}
use leto_rs.Leto.Engine.Invariant.{IsRunning}
use leto_rs.Leto.Engine.Invariant.Handling.{RunsOn, runs_on}

module _ {Tx H T R S PublicKey : Type 0} (platform : Platform Tx H T R S PublicKey)
    (cf : IsCollisionFree platform.base.storage platform.base.do_hash) (ids : List ℕ)
    (limit : ℕ) where
  open platform use {base}
  open base use {storage, do_hash}

  -- Where the storage grows, the invariant holds with the new storage.
  pub grown-IsRunning :
      (s : Server platform) (db : S)
      → Grows storage do_hash s.chain_state.db db
      → IsAddressed storage do_hash db
      → IsRunning platform ids limit s
      → IsRunning platform ids limit (record s { chain_state = record s.chain_state { db = db } })
  unfolding get_qc
  grown-IsRunning s db g a v =
      let ready = IsReady-Grows base s.chain_state.db db g in
      record {
        sound = record {
          lockstep = v.sound.lockstep;
          synced = v.sound.synced;
          fair = v.sound.fair;
          stored = record { hashed = v.sound.stored.hashed; stored = g _ _ v.sound.stored.stored };
          addressed = a;
          ready = Carries-weaken _ _ s.round_context ready v.sound.ready;
          arriving = All-weaken _ _ s.synchronizer.outer ready v.sound.arriving;
          looping = All-weaken _ _ s.tx_msg_loopback ready v.sound.looping;
          small = v.sound.small;
        };
        behind = v.behind;
        certified = v.certified;
        blames = v.blames;
      }

  pub channels-IsRunning :
      (s : Server platform) (synchronizer : Synchronizer Tx) (loop : List (ProtocolMsg Tx))
      → All (IsReady base s.chain_state.db) synchronizer.outer
      → All (IsReady base s.chain_state.db) loop
      → IsRunning platform ids limit s
      → IsRunning platform ids limit
          (record s { synchronizer = synchronizer; tx_msg_loopback = loop })
  channels-IsRunning s synchronizer loop h k v = record {
    sound = record {
      lockstep = v.sound.lockstep;
      synced = v.sound.synced;
      fair = v.sound.fair;
      stored = v.sound.stored;
      addressed = v.sound.addressed;
      ready = v.sound.ready;
      arriving = h;
      looping = k;
      small = v.sound.small;
    };
    behind = v.behind;
    certified = v.certified;
    blames = v.blames;
  }

  pub synchronized :
      (s : Server platform) (t : S × Synchronizer Tx)
      → IsRunning platform ids limit s
      → IsSynchronized base s.chain_state.db s.synchronizer t
      → IsRunning platform ids limit
          (record s { chain_state = record s.chain_state { db = t.0 }; synchronizer = t.1 })
  synchronized s (db, synchronizer) v (l, g, a) =
      let u = grown-IsRunning s db g a v in
      channels-IsRunning (record s { chain_state = record s.chain_state { db = db } }) synchronizer
        s.tx_msg_loopback (let_through l) u.sound.looping u
    where
      ready : All (IsReady base db) s.synchronizer.outer
      ready =
          All-weaken _ _ s.synchronizer.outer (IsReady-Grows base s.chain_state.db db g)
            v.sound.arriving

      let_through :
          LetsThrough base s.synchronizer (db, synchronizer)
          → All (IsReady base db) synchronizer.outer
      let_through (inl e) = subst (All (IsReady base db)) (sym e) ready
      let_through (inr (m, e, h)) =
          subst (All (IsReady base db)) (sym e)
            (All-append (IsReady base db) s.synchronizer.outer (m ∷ []) ready (h, tt))

  has_round : (db : S) (m : ProtocolMsg Tx) → IsReady base db m → (k : ℕ) × (msg_round m ≡ some k)
  unfolding msg_round
  has_round db (propose p a b s) h = (p.round, refl)
  has_round db (blame r a) h = (r, refl)
  has_round db (blame_qc r q) h = (r, refl)
  has_round db _ h = elim h [ ]

  -- Another context of the same round, with messages that are in their queues and ready.
  pub context-IsRunning :
      (s : Server platform) (d : RoundContext Tx H)
      → SameRound s.round_context d
      → IsSynced d
      → Carries (IsReady base s.chain_state.db) d
      → IsRunning platform ids limit s
      → IsRunning platform ids limit (record s { round_context = d })
  context-IsRunning s d (r, b) w k v = record {
    sound = record {
      lockstep = v.sound.lockstep ∙ sym r;
      synced = w;
      fair = v.sound.fair;
      stored = v.sound.stored;
      addressed = v.sound.addressed;
      ready = k;
      arriving = v.sound.arriving;
      looping = v.sound.looping;
      small = v.sound.small;
    };
    behind = rw (r) v.behind;
    certified = λ i x y. v.certified i x (rw (r) at y);
    blames = rw (r, b) v.blames;
  }

  round_sync-Ends :
      (s : Server platform) (m : ProtocolMsg Tx)
      → IsReady base s.chain_state.db m
      → IsRunning platform ids limit s
      → Ends (RunsOn platform ids limit (current_round s)) (round_sync platform s m)
  unfolding round_sync
  round_sync-Ends s m h v =
      let (k, g) = has_round s.chain_state.db m h in
      elim (Option-cases (sync m s.round_context)) [
        | inl e ↦ elim (sync_panics m k s.round_context g e) [ ]
        | inr (d, e) ↦
            let (r, b) = sync-SameRound m s.round_context d e in
            rw (e, ◌>>=◌)
              (
                context-IsRunning s d (r, b) (sync_keeps m s.round_context d e v.sound.synced)
                    (sync-Carries _ m k s.round_context d g e h v.sound.ready) v,
                omega (arith, r),
              )
      ]

  pub take_outer-Ends :
      (s : Server platform) (xs : List (ProtocolMsg Tx))
      → All (IsReady base s.chain_state.db) xs
      → IsRunning platform ids limit s
      → Ends (RunsOn platform ids limit (current_round s)) (take_outer platform s xs)
  unfolding take_outer
  take_outer-Ends s [] h v = runs_on platform ids limit s v
  take_outer-Ends s (m ∷ ms) h v = round_sync-Ends _ m h.0 (
      channels-IsRunning s (record s.synchronizer { outer = ms }) s.tx_msg_loopback h.1
        v.sound.looping v)

  pub take_loopback-Ends :
      (s : Server platform) (xs : List (ProtocolMsg Tx))
      → All (IsReady base s.chain_state.db) xs
      → IsRunning platform ids limit s
      → Ends (RunsOn platform ids limit (current_round s)) (take_loopback platform s xs)
  unfolding take_loopback
  take_loopback-Ends s [] h v = runs_on platform ids limit s v
  take_loopback-Ends s (m ∷ ms) h v =
      round_sync-Ends _ m h.0 (channels-IsRunning s s.synchronizer ms v.sound.arriving h.1 v)

  restored-Ends :
      (s : Server platform) (m : Handled (S × Synchronizer Tx) (S × Synchronizer Tx))
      → IsRunning platform ids limit s
      → Ends (IsSynchronized base s.chain_state.db s.synchronizer) m
      → Ends (RunsOn platform ids limit (current_round s)) (restored platform s m)
  unfolding restored
  restored-Ends s (ok t) v h = (synchronized s t v h, omega arith)
  restored-Ends s (failed t) v h = (synchronized s t v h, omega arith)
  restored-Ends s panicked v h = h
  restored-Ends s out_of_fuel v h = h

  synchronize-Ends :
      (s : Server platform) (m : ProtocolMsg Tx)
      → IsRunning platform ids limit s
      → Ends (RunsOn platform ids limit (current_round s)) (synchronize platform s m)
  unfolding synchronize
  synchronize-Ends s m v =
      restored-Ends s _ v (sync_msg_lem base s.chain_state.db s.synchronizer m cf v.sound.addressed)

  -- A proposal on the highest chain is ready.
  fast_path-Ends :
      (s : Server platform) (p : Proposal) (auth : Signature) (batch : List Tx) (sender : ℕ)
      → p.block.prev_hash ≡ s.chain_state.highest_chain_hash
      → IsRunning platform ids limit s
      → Ends (RunsOn platform ids limit (current_round s)) (
          round_sync platform
            (record s { chain_state = write_batch_ref base s.chain_state batch })
            (propose p auth batch sender))
  unfolding write_batch_ref get_element
  fast_path-Ends s p auth batch sender e v =
      let (g, a) =
        write_serialized-Grows storage do_hash s.chain_state.db (base.batches.serialize batch) cf
          v.sound.addressed in
      let ready : IsReady base s.chain_state.db (propose p auth batch sender) = (
        s.chain_state.highest_chain_element,
        rw (e) (get_highest base s.chain_state v.sound.stored),
      ) in
      round_sync-Ends _ (propose p auth batch sender)
        (IsReady-Grows base s.chain_state.db _ g (propose p auth batch sender) ready)
        (grown-IsRunning s _ g a v)

  pub on_net_msg-Ends :
      (s : Server platform) (m : ProtocolMsg Tx)
      → IsRunning platform ids limit s
      → Ends (RunsOn platform ids limit (current_round s)) (on_net_msg platform s m)
  unfolding on_net_msg
  on_net_msg-Ends s (propose p auth batch sender) v =
      elim (Bool-cases (
        nat_beq p.round (current_round s)
        && nat_beq p.block.prev_hash s.chain_state.highest_chain_hash)) [
          | inl e ↦ simp (e) (fast_path-Ends s p auth batch sender (ground (arith, e)) v)
          | inr e ↦ simp (e) (synchronize-Ends s (propose p auth batch sender) v)
        ]
  on_net_msg-Ends s (relay p auth hash sender) v = synchronize-Ends s _ v
  on_net_msg-Ends s (blame round auth) v = synchronize-Ends s _ v
  on_net_msg-Ends s (blame_qc round qc) v = synchronize-Ends s _ v
  on_net_msg-Ends s (batch_request source request) v = synchronize-Ends s _ v
  on_net_msg-Ends s (batch_response response) v = synchronize-Ends s _ v
  on_net_msg-Ends s (element_request source request) v = synchronize-Ends s _ v
  on_net_msg-Ends s (element_response response) v = synchronize-Ends s _ v
