-- ===== src/Leto/Synchronizer/Delivery.antt =====
-- consensus/src/server/leto/synchronizer/core.rs: what the synchronizer lets through.
use leto_rs.Prelude.{ℕ, ◌≡◌, refl, sym, ◌⊎◌, inl, inr, List, [], ◌∷◌, ◌++◌}
use mathlib.Core.Path.{subst}
use leto_rs.Prelude.Results.{Ends, Ends-map}
use leto_rs.Types.{
  Signature, Proposal, Element, ProtocolMsg, propose, relay, blame, blame_qc, batch_request,
  batch_response, element_request, element_response,
}
use leto_rs.ChainDb.{Found, found, absent, garbled, read, write}
use leto_rs.ChainDb.Contents.{IsCollisionFree}
use leto_rs.ChainDb.Growth.{IsAddressed, Grows, write-Grows, read-Grows}
use leto_rs.Leto.ChainState.{Database}
use leto_rs.Leto.Synchronizer.{
  Synchronizer, to_inner, to_outer, to_helper, relay_known, propose_known, sync_propose_msg,
  sync_relay_msg, sync_msg,
}

module _ {Tx S : Type 0} (base : Database Tx S) where
  open base use {storage, do_hash, elements, batches}

  -- A proposal is ready where its parent is on the disk; blames and their certificates are; no other
  -- message is.
  abbrev pub IsReady : S → ProtocolMsg Tx → Type 0
  IsReady db (propose p auth batch sender) =
      (parent : Element Tx) × (read storage do_hash elements db p.block.prev_hash ≡ found parent)
  IsReady db (blame round auth) = Unit
  IsReady db (blame_qc round qc) = Unit
  IsReady db _ = ⊥

  -- What is ready stays so.
  pub IsReady-Grows :
      (db db' : S)
      → Grows storage do_hash db db'
      → (m : ProtocolMsg Tx) → IsReady db m
      → IsReady db' m
  IsReady-Grows db db' g (propose p auth batch sender) (parent, h) =
      (parent, read-Grows storage do_hash elements db db' p.block.prev_hash parent g h)
  IsReady-Grows db db' g (blame round auth) h = tt
  IsReady-Grows db db' g (blame_qc round qc) h = tt
  IsReady-Grows db db' g _ h = elim h [ ]

  -- At most one message was let through, and it is ready.
  abbrev pub LetsThrough : Synchronizer Tx → S × Synchronizer Tx → Type 0
  LetsThrough s (db, t) =
      (t.outer ≡ s.outer) ⊎ ((m : ProtocolMsg Tx) × (t.outer ≡ s.outer ++ m ∷ []) × IsReady db m)

  propose_known-LetsThrough :
      (db : S) (s : Synchronizer Tx) (p : Proposal) (auth : Signature) (batch : List Tx)
      (sender : ℕ) (f : Found (Element Tx))
      → read storage do_hash elements db p.block.prev_hash ≡ f
      → Ends (λ t. LetsThrough s t × (t.0 ≡ db)) (propose_known (db, s) p auth batch sender f)
  unfolding propose_known to_inner to_outer
  propose_known-LetsThrough db s p auth batch sender garbled e = (inl refl, refl)
  propose_known-LetsThrough db s p auth batch sender absent e = (inl refl, refl)
  propose_known-LetsThrough db s p auth batch sender (found parent) e =
      (inr (propose p auth batch sender, refl, (parent, e)), refl)

  relay_known-LetsThrough :
      (db : S) (s : Synchronizer Tx) (p : Proposal) (auth : Signature) (hash : ℕ) (sender : ℕ)
      (b : Found (List Tx)) (f : Found (Element Tx))
      → read storage do_hash elements db p.block.prev_hash ≡ f
      → Ends (λ t. LetsThrough s t × (t.0 ≡ db)) (relay_known (db, s) p auth hash sender b f)
  unfolding relay_known to_inner to_outer
  relay_known-LetsThrough db s p auth hash sender garbled f e = (inl refl, refl)
  relay_known-LetsThrough db s p auth hash sender absent garbled e = (inl refl, refl)
  relay_known-LetsThrough db s p auth hash sender (found batch) garbled e = (inl refl, refl)
  relay_known-LetsThrough db s p auth hash sender absent absent e = (inl refl, refl)
  relay_known-LetsThrough db s p auth hash sender (found batch) absent e = (inl refl, refl)
  relay_known-LetsThrough db s p auth hash sender absent (found parent) e = (inl refl, refl)
  relay_known-LetsThrough db s p auth hash sender (found batch) (found parent) e =
      (inr (propose p auth batch sender, refl, (parent, e)), refl)

  -- The storage has grown, and at most one ready message was let through.
  abbrev pub IsSynchronized : S → Synchronizer Tx → S × Synchronizer Tx → Type 0
  IsSynchronized db s t =
      LetsThrough s t × Grows storage do_hash db t.0 × IsAddressed storage do_hash t.0

  same_storage :
      (db db' : S) (s : Synchronizer Tx)
      → Grows storage do_hash db db'
      → IsAddressed storage do_hash db'
      → (t : S × Synchronizer Tx) → LetsThrough s t × (t.0 ≡ db')
      → IsSynchronized db s t
  same_storage db db' s g a t (l, e) =
      (l, subst (Grows storage do_hash db) (sym e) g, subst (IsAddressed storage do_hash) (sym e) a)

  -- Where keys are hashes of their values and hashes do not collide, `sync_msg` does not panic, only
  -- adds to the storage, and lets at most one message through: a proposal whose parent is on the
  -- disk, a blame, or a certificate of blames.
  pub sync_msg_lem :
      (db : S) (s : Synchronizer Tx) (m : ProtocolMsg Tx)
      → IsCollisionFree storage do_hash
      → IsAddressed storage do_hash db
      → Ends (IsSynchronized db s) (sync_msg base (db, s) m)
  unfolding sync_msg sync_propose_msg sync_relay_msg to_outer to_helper
  sync_msg_lem db s (propose p auth batch sender) c a =
      let (g, b) = write-Grows storage do_hash batches db batch c a in
      let db' = write storage do_hash batches db batch in
      Ends-map (λ t. LetsThrough s t × (t.0 ≡ db')) (IsSynchronized db s)
        (same_storage db db' s g b) _ (propose_known-LetsThrough db' s p auth batch sender _ refl)
  sync_msg_lem db s (relay p auth hash sender) c a =
      Ends-map (λ t. LetsThrough s t × (t.0 ≡ db)) (IsSynchronized db s)
        (same_storage db db s (λ k v h. h) a) _
        (relay_known-LetsThrough db s p auth hash sender (read storage do_hash batches db hash) _
          refl)
  sync_msg_lem db s (batch_request source request) c a = (inl refl, (λ k v h. h), a)
  sync_msg_lem db s (batch_response response) c a =
      let (g, b) = write-Grows storage do_hash batches db response.response c a in (inl refl, g, b)
  sync_msg_lem db s (element_request source request) c a = (inl refl, (λ k v h. h), a)
  sync_msg_lem db s (element_response response) c a =
      let (g, b) = write-Grows storage do_hash elements db response.response c a in (inl refl, g, b)
  sync_msg_lem db s (blame round auth) c a = (inr (blame round auth, refl, tt), (λ k v h. h), a)
  sync_msg_lem db s (blame_qc round qc) c a = (inr (blame_qc round qc, refl, tt), (λ k v h. h), a)
