-- ===== src/Leto/Engine/Invariant.antt =====
-- consensus/src/server/leto: what holds of the server between two turns of its loop.
pub mod Advancing
pub mod Handling
pub mod Blamed
pub mod Leading
pub mod Running
pub mod Turns
pub mod Spawning
use leto_rs.Prelude.{
  ◌>>=◌, ℕ, suc, ◌+◌, ◌^◌, ◌≤◌, ◌<◌, ◌≡◌, refl, sym, ap, ◌∙◌, inl, inr, Bool, true, false, Option,
  none, some, List, [], ◌∷◌, ◌++◌, nat_eq, nat_beq, if◌then◌else◌, Map, lookup, insert,
  wrapping_add, wrapping_add_small, usize_mod, All, Option-cases, arith,
}
use mathlib.Core.Path.{subst}
use leto_rs.Types.{Signature, Certificate}
use leto_rs.Leto.LeaderContext
use leto_rs.Leto.LeaderContext.{LeaderContext, Choice}
use leto_rs.Leto.LeaderContext.Fairness.{IsFair, advance-IsFair}
use leto_rs.Leto.RoundContext.{RoundContext}
use leto_rs.ChainDb.Growth.{IsAddressed}
use leto_rs.Leto.RoundContext.Delivery.{IsSynced}
use leto_rs.Leto.RoundContext.Contents.{Carries}
use leto_rs.Leto.Synchronizer.Delivery.{IsReady}
use leto_rs.Leto.ChainState.{ChainState, get_qc}
use leto_rs.Leto.ChainState.Elements.{IsStored}
use leto_rs.Leto.Engine.{Leto, Platform, Server, highest_round, current_round}
use leto_rs.Leto.Engine.Blaming.Forming.{AreBlames}

-- Every round behind the highest element's, up to the round before `until`, has a certificate.
abbrev pub IsCertified : {Tx S : Type 0} → ChainState Tx S → ℕ → Type 0
IsCertified c until =
    (r : ℕ)
    → c.highest_chain_element.proposal.round < r
    → r < until
    → (qc : Certificate) × (get_qc c r ≡ some qc)

module _ {Tx H T R S PublicKey : Type 0} (platform : Platform Tx H T R S PublicKey) (ids : List ℕ)
    (limit : ℕ) where
  -- What holds whatever the phase of a round: the leaders are those of the round, messages wait in
  -- the queue of their round, leaders are fair, the highest element is on the disk, and so is the
  -- parent of every proposal that waits in the context or in a channel.
  pub record IsSound (s : Server platform) : Type 0 where
    pub lockstep : s.leader_context.current_round + 1 ≡ current_round s
    pub synced : IsSynced s.round_context
    pub fair : IsFair ids limit s.leader_context
    pub stored : IsStored platform.base s.chain_state
    pub addressed : IsAddressed platform.base.storage platform.base.do_hash s.chain_state.db
    pub ready : Carries (IsReady platform.base s.chain_state.db) s.round_context
    pub arriving : All (IsReady platform.base s.chain_state.db) s.synchronizer.outer
    pub looping : All (IsReady platform.base s.chain_state.db) s.tx_msg_loopback
    pub small : s.num_faults < 2 ^ 32

  -- Between two turns, the highest element is of an earlier round, the rounds between have
  -- certificates, and the blames are valid ones of the current round, of different servers.
  pub record IsRunning (s : Server platform) : Type 0 where
    pub sound : IsSound s
    pub behind : highest_round s < current_round s
    pub certified : IsCertified s.chain_state (current_round s)
    pub blames : AreBlames platform s.crypto_system (current_round s) s.round_context.blame_map

  -- When a round may end, there is an element of it, or a certificate for it.
  pub record IsEnding (s : Server platform) : Type 0 where
    pub sound : IsSound s
    pub reached : highest_round s ≤ current_round s
    pub certified : IsCertified s.chain_state (current_round s + 1)
