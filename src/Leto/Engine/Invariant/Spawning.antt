-- ===== src/Leto/Engine/Invariant/Spawning.antt =====
-- consensus/src/server/leto/core.rs: the server starts as it should.
use leto_rs.Prelude.{
  ℕ, ◌+◌, ◌^◌, ◌≤◌, ◌<◌, usize_mod, ◌≡◌, refl, sym, ap, some, List, [], ◌∷◌, nat_eq, Map, length,
  eq_of_some, bind_some, arith,
}
use leto_rs.Prelude.Results.{Leaves}
use leto_rs.Types.{genesis}
use leto_rs.Types.Quorum.{IsDistinct}
use leto_rs.ChainDb.Contents.{IsCollisionFree}
use leto_rs.ChainDb.Growth.{IsAddressed, write-Grows}
use leto_rs.Leto.LeaderContext
use leto_rs.Leto.LeaderContext.{
  LeaderContext, Choice, start_id, replacement_limit, retire, collect_set,
}
use leto_rs.Leto.LeaderContext.Start.{new-IsFair}
use leto_rs.Leto.LeaderContext.Fairness.{IsFair}
use leto_rs.Leto.RoundContext
use leto_rs.Leto.RoundContext.Delivery.{new-IsSynced}
use leto_rs.Leto.RoundContext.Contents.{new-Carries}
use leto_rs.Leto.ChainState
use leto_rs.Leto.ChainState.{genesis_setup, write_element}
use leto_rs.Leto.ChainState.Elements.{genesis_setup-IsStored}
use leto_rs.Leto.Engine.{Platform, Server, current_round}
use leto_rs.Leto.Engine.Loop.{Event, started, spawn, run}
use leto_rs.Leto.Engine.Invariant.{IsRunning}
use leto_rs.Leto.Engine.Invariant.Turns.{IsHistory, run_lem}

pub first_round :
    {R : Type 0} (choice : Choice R) (seed : R) (ids : List ℕ) (num_faults : ℕ)
    (c : LeaderContext R)
    → LeaderContext.new choice seed ids num_faults ≡ some c
    → c.current_round ≡ 0
unfolding LeaderContext.new
first_round choice seed ids num_faults c e =
    let (x, f, g) = bind_some (retire (replacement_limit (length ids) num_faults) ids []) _ c e in
    let (d, h, i) =
      bind_some
        (LeaderContext.advance_round choice (record {
          rng = seed;
          current_round = 0;
          elligible = collect_set x.0;
          history = x.1;
          current_leader = start_id;
          next_leader = start_id;
        }))
        _ c g in
    sym (ap (λ z. z.current_round) (eq_of_some _ c i))

module _ {Tx H T R S PublicKey : Type 0} (platform : Platform Tx H T R S PublicKey) where
  -- A server that is started with fair leaders is as it is between two turns, in round 1.
  pub started-IsRunning :
      (my_id : ℕ) (crypto_system : Map ℕ PublicKey) (ids : List ℕ) (limit num_faults empty_hash : ℕ)
      (timer : T) (store : S) (c : LeaderContext R)
      → IsCollisionFree platform.base.storage platform.base.do_hash
      → IsAddressed platform.base.storage platform.base.do_hash store
      → IsFair ids limit c
      → c.current_round ≡ 0
      → num_faults < 2 ^ 32
      → let s = started platform my_id crypto_system ids num_faults empty_hash timer store c in
        IsRunning platform ids limit s × (current_round s ≡ 1)
  unfolding started genesis_setup write_element ChainState.new RoundContext.new genesis
  started-IsRunning my_id crypto_system ids limit num_faults empty_hash timer store c cf a f r b =
      let base = platform.base in
      let stored = genesis_setup-IsStored base empty_hash store in
      (
        record {
          sound = record {
            lockstep = rw (r) refl;
            synced = new-IsSynced (length ids);
            fair = f;
            stored = record { hashed = stored.hashed; stored = stored.stored };
            addressed =
                (write-Grows base.storage base.do_hash base.elements store (genesis empty_hash 0) cf
                  a).1;
            ready = new-Carries _ (length ids);
            arriving = tt;
            looping = tt;
            small = b;
          };
          behind = omega arith;
          certified = λ r h k. let x : ⊥ = omega (arith, h, k) in elim x [ ];
          blames = record { distinct = tt; signed = tt };
        },
        refl,
      )

  -- Where hashes do not collide, the storage holds values under their hashes, the servers are
  -- different and more than a window of leaders is long, and there are less than 2^32 faults: the
  -- server starts, and after any history of events that does not overflow the rounds, where the
  -- helper's task delivers elements whose parent is on the disk, it has panicked or is as it is
  -- between two turns: its leaders are those of its round, there is a certificate for every round
  -- behind that of the highest element, which is on the disk, and the blames that it holds are valid
  -- ones of its round, of different servers. The checks inside the turns end.
  pub served :
      (my_id : ℕ) (crypto_system : Map ℕ PublicKey) (rest : List ℕ) (num_faults empty_hash : ℕ)
      (seed : R) (timer : T) (store : S)
      (cf : IsCollisionFree platform.base.storage platform.base.do_hash)
      → IsAddressed platform.base.storage platform.base.do_hash store
      → IsDistinct (start_id ∷ rest)
      → (l : 0 < replacement_limit (length (start_id ∷ rest)) num_faults)
      → replacement_limit (length (start_id ∷ rest)) num_faults ≤ length rest
      → num_faults < 2 ^ 32
      → (es : List (Event Tx)) → length es + 2 ^ 33 + 1 < usize_mod
      → ((s : Server platform)
          → spawn platform my_id crypto_system
              (start_id ∷ rest)
              num_faults
              empty_hash
              seed
              timer
              store
            ≡ some s
          → IsHistory platform cf
              (start_id ∷ rest)
              (replacement_limit (length (start_id ∷ rest)) num_faults)
              l
              s
              es)
      → (s : Server platform) × (spawn platform my_id crypto_system
            (start_id ∷ rest)
            num_faults
            empty_hash
            seed
            timer
            store
          ≡ some s)
        × Leaves
            (IsRunning platform
              (start_id ∷ rest)
              (replacement_limit (length (start_id ∷ rest)) num_faults))
            (run platform s es)
  unfolding spawn
  served my_id crypto_system rest num_faults empty_hash seed timer store cf a d l m b es o h =
      let ids = start_id ∷ rest in
      let limit = replacement_limit (length ids) num_faults in
      let (c, e, f, g) = new-IsFair platform.choice seed rest num_faults d l m in
      let s = started platform my_id crypto_system ids num_faults empty_hash timer store c in
      let e' : spawn platform my_id crypto_system ids num_faults empty_hash seed timer store
          ≡ some s =
        rw (e) refl in
      let (v, r) =
        started-IsRunning my_id crypto_system ids limit num_faults empty_hash timer store c cf a f
          (first_round platform.choice seed ids num_faults c e) b in
      (s, e', run_lem platform cf ids limit l s es (omega (arith, o, r)) (h s e') v)
