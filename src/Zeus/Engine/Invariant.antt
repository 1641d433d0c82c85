-- ===== src/Zeus/Engine/Invariant.antt =====
-- consensus/src/server/zeus: what holds of the server between two turns of its loop.
pub mod Signing
pub mod Epochs
pub mod Changing
pub mod Parking
pub mod Admission
pub mod Draining
pub mod Blocks
pub mod Turns
pub mod Starting
pub mod Commits
use leto_rs.Prelude.{
  ◌>>=◌, ℕ, ◌<◌, ◌≡◌, refl, sym, ap, ◌∙◌, ◌⊎◌, inl, inr, Bool, true, false, Option, none, some,
  List, [], ◌∷◌, ◌++◌, nat_eq, Map, Option-cases, eq_of_some, lookup, contains_key, wrapping_add,
  All, arith,
}
use mathlib.Core.Path.{subst}
use leto_rs.Leto.RoundContext.{queue_at}
use leto_rs.Zeus.Types.{DataBlock, DataBlockEnvelope, EleaderChangeQc}
use leto_rs.Zeus.DataChain.{eleader_change_qc_valid}
use leto_rs.Zeus.DataChain.Prefix.{IsRanked}
use leto_rs.Zeus.Store.{Codec}
use leto_rs.Zeus.Committing
use leto_rs.Zeus.Committing.{ZeusState}
use leto_rs.Zeus.Committing.Walks.{IsClimbing}
use leto_rs.Zeus.Engine.{Zeus, Platform, Server, crypto, codec}
use leto_rs.Zeus.Engine.Start.{initial_chain}

-- The blocks wait under their parent.
abbrev pub IsParked : {Tx : Type 0} → ℕ × List (DataBlock Tx) → Type 0
IsParked (parent_hash, blocks) = All (λ b. b.envelope.parent_hash ≡ parent_hash) blocks

-- The keys of the server, how many may be faulty, and how many there are.
pub record Config (PublicKey : Type 0) : Type 0 where
  pub system : Map ℕ PublicKey
  pub num_faults : ℕ
  pub num_nodes : ℕ

-- What the invariant reads.
pub record Core (Tx PublicKey : Type 0) : Type 0 where
  pub zeus : ZeusState Tx
  pub pending : Map ℕ (List (DataBlock Tx))
  pub admitted : Map ℕ (EleaderChangeQc Tx)
  pub current_epoch : ℕ
  pub config : Config PublicKey

run-snoc :
    {Tx : Type 0} (codec : Codec Tx) (zeus mid next : ZeusState Tx)
    (es : List (Committing.Event Tx)) (e : Committing.Event Tx)
    → Committing.run codec zeus es ≡ some mid
    → Committing.step codec mid e ≡ some next
    → Committing.run codec zeus (es ++ e ∷ []) ≡ some next
unfolding Committing.run
run-snoc codec zeus mid next [] e p q = rw (eq_of_some zeus mid p, q) refl
run-snoc codec zeus mid next (d ∷ es) e p q = elim (Option-cases (Committing.step codec zeus d)) [
  | inl f ↦ ground (arith, f, p)
  | inr (t, f) ↦ rw f (run-snoc codec t mid next es e (sym (rw f refl) ∙ p) q)
]

module _ {Tx H T R S PublicKey : Type 0} (platform : Platform Tx H T R S PublicKey) where
  abbrev pub core : Server platform → Core Tx PublicKey
  core s = record {
    zeus = s.data_plane.zeus;
    pending = s.pending_data_blocks;
    admitted = s.admitted_change_qcs;
    current_epoch = s.data_plane.current_epoch;
    config = record {
      system = s.crypto_system;
      num_faults = s.num_faults;
      num_nodes = s.data_plane.num_nodes;
    };
  }

  -- The certificate is one of the epoch's that is valid.
  abbrev pub IsValidChange : Config PublicKey → ℕ → EleaderChangeQc Tx → Type 0
  IsValidChange config epoch qc =
      (qc.epoch ≡ epoch)
      × (eleader_change_qc_valid (crypto platform) qc config.system config.num_faults
            config.num_nodes
          ≡ some true)

  -- The store, the links and the commits are those of a history of the data chain.
  abbrev pub Reached : ZeusState Tx → Type 0
  Reached zeus =
      (es : List (Committing.Event Tx)) × (Committing.run (codec platform) (initial_chain platform)
          es
        ≡ some zeus)

  pub Reached-step :
      (zeus next : ZeusState Tx) (e : Committing.Event Tx)
      → Committing.step (codec platform) zeus e ≡ some next
      → Reached zeus
      → Reached next
  Reached-step zeus next e q (es, p) =
      (es ++ e ∷ [], run-snoc (codec platform) (initial_chain platform) zeus next es e p q)

  -- Blocks stand under their hashes and above their parents, also those that wait for a parent;
  -- every certificate but that of epoch 0 is a valid one, and there is one of the epoch before the
  -- current one; the data chain has a history of its own.
  pub record IsSound (rank : ℕ → ℕ) (config : Config PublicKey) (c : Core Tx PublicKey)
      : Type 0 where
    pub ranked : IsRanked rank c.zeus.data_block_db.meta
    pub climbing : IsClimbing rank c.zeus
    pub waiting : All IsParked c.pending
    pub changes :
        (epoch : ℕ) (qc : EleaderChangeQc Tx)
        → lookup epoch c.admitted ≡ some qc
        → (epoch ≡ 0) ⊎ IsValidChange config epoch qc
    pub reached :
        (epoch : ℕ) × (contains_key epoch c.admitted ≡ true)
        × (c.current_epoch ≡ wrapping_add epoch 1)
    pub history : Reached c.zeus
    pub configured : c.config ≡ config

  module _ (rank : ℕ → ℕ) (config : Config PublicKey) where
    -- The server's state is sound.
    abbrev pub Holds : Server platform → Type 0
    Holds s = IsSound rank config (core s)

    pub Holds-core : (s t : Server platform) → core t ≡ core s → Holds s → Holds t
    Holds-core s t e v = subst (IsSound rank config) (sym e) v
