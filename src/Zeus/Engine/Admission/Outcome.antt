-- ===== src/Zeus/Engine/Admission/Outcome.antt =====
-- consensus/src/server/zeus/phases/data.rs: the three cases of `admit_data_block`.
use leto_rs.Prelude.{◌≡◌, ◌≢◌, ◌⊎◌, [], ◌∷◌, ◌++◌, nat_eq}
use leto_rs.Leto.RoundContext.{queue_at}
use leto_rs.Zeus.Types.{DataBlock}
use leto_rs.Zeus.Engine.{Platform, Server}
use leto_rs.Zeus.Engine.Admission.{genesis_hash}

module _ {Tx H T R S PublicKey : Type 0} (platform : Platform Tx H T R S PublicKey) where
  open platform use {hash_envelope}

  -- The block waits for its parent; one that waits for the genesis block is dropped.
  abbrev pub IsParkedIn : Server platform → DataBlock Tx → Server platform → Type 0
  IsParkedIn s b t =
      let p = b.envelope.parent_hash in
      (t.data_plane ≡ s.data_plane)
      × (((p ≡ genesis_hash platform) × (t ≡ s))
          ⊎ ((p ≢ genesis_hash platform)
              × (queue_at p t.pending_data_blocks ≡ queue_at p s.pending_data_blocks ++ b ∷ [])))
