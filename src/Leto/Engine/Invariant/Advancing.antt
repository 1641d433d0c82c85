-- ===== src/Leto/Engine/Invariant/Advancing.antt =====
-- consensus/src/server/leto/round_context.rs, `Leto::advance_round`: the next round begins as it
-- should.
use leto_rs.Prelude.{
  ℕ, ◌+◌, ◌<◌, ◌≡◌, refl, sym, ap, ◌∙◌, some, List, nat_eq, set_remove, set_insert, wrapping_add,
  wrapping_add_small, usize_mod, eq_of_some, bind_some, last?, arith,
}
use leto_rs.Prelude.Results
use leto_rs.Prelude.Results.{Handled, ok, or_panic}
use leto_rs.Leto.LeaderContext
use leto_rs.Leto.LeaderContext.{LeaderContext, Choice}
use leto_rs.Leto.LeaderContext.Fairness.{advance-IsFair}
use leto_rs.Leto.RoundContext.Contents.{advance-Carries}
use leto_rs.Leto.Synchronizer
use leto_rs.Leto.Synchronizer.Delivery.{IsReady}
use leto_rs.Leto.RoundContext.Rounds.{advance-IsSynced, advance_resets}
use leto_rs.Leto.Engine.{Platform, Server, current_round, try_commit, end_round, advance_round}
use leto_rs.Leto.Engine.Invariant.{IsRunning, IsEnding}

leader_round :
    {R : Type 0} (choice : Choice R) (c d : LeaderContext R)
    → LeaderContext.advance_round choice c ≡ some d
    → d.current_round ≡ wrapping_add c.current_round 1
unfolding LeaderContext.advance_round
leader_round choice c d e =
    let (x, f, g) = bind_some (last? c.history) _ d e in
    let (y, h, i) =
      bind_some (choice.choose c.rng (set_remove c.next_leader (set_insert x c.elligible))) _ d g in
    sym (ap (λ z. z.current_round) (eq_of_some _ d i))

module _ {Tx H T R S PublicKey : Type 0} (platform : Platform Tx H T R S PublicKey) (ids : List ℕ)
    (limit : ℕ) where
  -- Where a round may end and the next one does not overflow, `advance_round` does not panic, moves
  -- one round on, and leaves the server as it is between two turns.
  pub advance-IsRunning :
      (s : Server platform)
      → 0 < limit
      → current_round s + 1 < usize_mod
      → IsEnding platform ids limit s
      → (t : Server platform) × (advance_round platform s ≡ ok t)
        × IsRunning platform ids limit t
        × (current_round t ≡ current_round s + 1)
  unfolding advance_round end_round try_commit Synchronizer.advance_round
  advance-IsRunning s l b v =
      let (d, e, f, _, _, _) =
        advance-IsFair platform.choice ids limit s.leader_context l v.sound.fair in
      let (synced, next) =
        advance-IsSynced platform.reset platform.gc_depth s.round_context s.round_timer
          v.sound.synced b in
      let (blamed, _, _, _, _) =
        advance_resets platform.reset platform.gc_depth s.round_context s.round_timer 0 b in
      (
        end_round platform s d,
        rw (e, Results.◌>>=◌) refl,
        record {
          sound = record {
            lockstep =
                ap (λ r. r + 1)
                  (leader_round platform.choice s.leader_context d e
                    ∙ wrapping_add_small s.leader_context.current_round 1
                        (omega (arith, v.sound.lockstep))
                    ∙ v.sound.lockstep)
                ∙ sym next;
            synced = synced;
            fair = f;
            stored = record { hashed = v.sound.stored.hashed; stored = v.sound.stored.stored };
            addressed = v.sound.addressed;
            ready =
                advance-Carries (IsReady platform.base s.chain_state.db) platform.reset
                  platform.gc_depth s.round_context s.round_timer v.sound.ready;
            arriving = v.sound.arriving;
            looping = v.sound.looping;
            small = v.sound.small;
          };
          behind = rw (next) (omega (arith, v.reached));
          certified = λ r h k. v.certified r h (rw (next) at k);
          blames = rw (blamed) (record { distinct = tt; signed = tt });
        },
        next,
      )
