-- ===== src/Leto/Engine/Invariant/Blamed.antt =====
-- consensus/src/server/leto/phases/blame.rs: blames and certificates of the current round keep the
-- invariant.
use leto_rs.Prelude.{
  ℕ, ◌+◌, ◌<◌, ◌≡◌, refl, inl, inr, Bool, true, List, [], nat_eq, nat_beq, Map, lookup, insert,
  lookup-insert, usize_mod, length, All-append, Bool-cases, Option-cases, arith,
}
use mathlib.Core.Path.{subst}
use leto_rs.Prelude.Results.{◌>>=◌, Ends}
use leto_rs.Types.{
  Signature, Certificate, blame, blame_qc, verify_without_id_check, verify_certificate,
  empty_certificate,
}
use leto_rs.Types.Verification.{IsSignedIn}
use leto_rs.Leto.RoundContext.{disable_blame_timers, add_handlers}
use leto_rs.Leto.RoundContext.Frames.{blames-IsSynced}
use leto_rs.Leto.RoundContext.Contents.{blames-Carries}
use leto_rs.Leto.Synchronizer.Delivery.{IsReady}
use leto_rs.Leto.ChainState.{ChainState, add_qc, get_qc}
use leto_rs.Leto.Engine.{Platform, Server, highest_round, current_round, qc_len, broadcast}
use leto_rs.Leto.Engine.Blaming.{
  add_all, add_blame, handle_blame, handle_blame_qc, on_blame_qc, on_round_timeout,
}
use leto_rs.Leto.Engine.Blaming.Forming.{insert-AreBlames}
use leto_rs.Leto.Engine.Invariant.{IsCertified, IsSound, IsRunning}
use leto_rs.Leto.Engine.Invariant.Handling.{RunsOn, runs_on, broadcast-IsSound, ending_ok}

-- A certificate for the round `until` covers that round too.
add_qc-IsCertified :
    {Tx S : Type 0} (c : ChainState Tx S) (until : ℕ) (qc : Certificate)
    → IsCertified c until
    → IsCertified (add_qc c until qc) (until + 1)
unfolding add_qc get_qc
add_qc-IsCertified c until qc h r k l = elim (Bool-cases (nat_beq until r)) [
  | inl e ↦ (qc, rw (lookup-insert r until qc c.qc_map, e) refl)
  | inr e ↦
      let (q, f) = h r k (ground (arith, e, l)) in (q, rw (lookup-insert r until qc c.qc_map, e) f)
]

module _ {Tx H T R S PublicKey : Type 0} (platform : Platform Tx H T R S PublicKey) (ids : List ℕ)
    (limit : ℕ) where
  blames-IsSound :
      (s : Server platform) (m : Map ℕ Signature) (b : Bool)
      → IsSound platform ids limit s
      → IsSound platform ids limit
          (record s { round_context = record s.round_context { blame_map = m; got_qc = b } })
  blames-IsSound s m b v = record {
    lockstep = v.lockstep;
    synced = blames-IsSynced s.round_context m b v.synced;
    fair = v.fair;
    stored = v.stored;
    addressed = v.addressed;
    ready = blames-Carries (IsReady platform.base s.chain_state.db) s.round_context m b v.ready;
    arriving = v.arriving;
    looping = v.looping;
    small = v.small;
  }

  handle_blame_qc-Ends :
      (s : Server platform) (round : ℕ) (qc : Certificate)
      → 0 < limit
      → current_round s + 1 < usize_mod
      → IsSound platform ids limit s
      → highest_round s < current_round s
      → IsCertified s.chain_state (current_round s)
      → round ≡ current_round s
      → Ends (RunsOn platform ids limit (current_round s)) (handle_blame_qc platform s round qc)
  unfolding handle_blame_qc broadcast add_qc
  handle_blame_qc-Ends s round qc l b v w k e =
      let t = record s { round_context = record s.round_context { got_qc = true } } in
      let u =
        broadcast-IsSound platform ids limit t (blame_qc (current_round s) qc)
          (blames-IsSound s s.round_context.blame_map true v) in
      rw (e) (
        ending_ok platform ids limit _ l b (record {
          sound = record {
            lockstep = u.lockstep;
            synced = u.synced;
            fair = u.fair;
            stored = record { hashed = u.stored.hashed; stored = u.stored.stored };
            addressed = u.addressed;
            ready = u.ready;
            arriving = u.arriving;
            looping = u.looping;
            small = u.small;
          };
          reached = omega (arith, w);
          certified = add_qc-IsCertified s.chain_state (current_round s) qc k;
        }))

  module _ (s : Server platform) (l : 0 < limit) (b : current_round s + 1 < usize_mod)
      (v : IsRunning platform ids limit s) where
    add_blame-Ends :
        (round : ℕ) (auth : Signature)
        → round ≡ current_round s
        → IsSignedIn platform.pk_verify s.crypto_system (platform.hash_round round) auth
        → Ends (RunsOn platform ids limit (current_round s)) (add_blame platform s round auth)
    unfolding add_blame
    add_blame-Ends round auth e g =
        let m = insert auth.id auth s.round_context.blame_map in
        elim (Bool-cases (nat_beq (length m) (qc_len s))) [
          | inl f ↦ rw (f) (
              handle_blame_qc-Ends _ round (add_all m empty_certificate) l b
                (blames-IsSound s [] true v.sound) v.behind v.certified e)
          | inr f ↦ rw (f) (
            record {
              sound = blames-IsSound s m s.round_context.got_qc v.sound;
              behind = v.behind;
              certified = v.certified;
              blames =
                  insert-AreBlames platform s.crypto_system (current_round s) auth
                    s.round_context.blame_map
                    (subst
                      (λ r.
                        IsSignedIn platform.pk_verify s.crypto_system (platform.hash_round r) auth)
                      e g)
                    v.blames;
            },
            omega arith,
          )
        ]

    pub handle_blame-Ends :
        (round : ℕ) (auth : Signature)
        → round ≡ current_round s
        → Ends (RunsOn platform ids limit (current_round s)) (handle_blame platform s round auth)
    unfolding handle_blame verify_without_id_check
    handle_blame-Ends round auth e = elim (Bool-cases (nat_beq (highest_round s) round)) [
      | inl h ↦ rw (h) (runs_on platform ids limit s v)
      | inr h ↦ elim (Bool-cases s.round_context.got_qc) [
        | inl g ↦ simp (h, g) (runs_on platform ids limit s v)
        | inr g ↦ elim (Option-cases (lookup auth.id s.crypto_system)) [
          | inl k ↦ simp (h, g, k, ◌>>=◌) (runs_on platform ids limit s v)
          | inr (pk, k) ↦
              elim (Bool-cases (platform.pk_verify pk (platform.hash_round round) auth.raw)) [
                | inl w ↦ simp (h, g, k, ◌>>=◌, w) (add_blame-Ends round auth e (pk, k, w))
                | inr w ↦ simp (h, g, k, ◌>>=◌, w) (runs_on platform ids limit s v)
              ]
        ]
      ]
    ]

    pub on_blame_qc-Ends :
        (round : ℕ) (qc : Certificate)
        → round ≡ current_round s
        → Ends (RunsOn platform ids limit (current_round s)) (on_blame_qc platform s round qc)
    unfolding on_blame_qc
    on_blame_qc-Ends round qc e = elim (Bool-cases s.round_context.got_qc) [
      | inl g ↦ simp (g) (runs_on platform ids limit s v)
      | inr g ↦
          elim (Bool-cases (
            verify_certificate platform.pk_verify qc (platform.hash_round round) s.crypto_system)) [
              | inl w ↦
                  simp (g, w) (handle_blame_qc-Ends s round qc l b v.sound v.behind v.certified e)
              | inr w ↦ simp (g, w) (runs_on platform ids limit s v)
            ]
    ]

    timed_out :
        IsRunning platform ids limit (record s { round_timer = disable_blame_timers s.round_timer })
    timed_out = record {
      sound = record {
        lockstep = v.sound.lockstep;
        synced = v.sound.synced;
        fair = v.sound.fair;
        stored = v.sound.stored;
        addressed = v.sound.addressed;
        ready = v.sound.ready;
        arriving = v.sound.arriving;
        looping = v.sound.looping;
        small = v.sound.small;
      };
      behind = v.behind;
      certified = v.certified;
      blames = v.blames;
    }

    pub on_round_timeout-Ends :
        Ends (RunsOn platform ids limit (current_round s)) (on_round_timeout platform s)
    unfolding on_round_timeout broadcast add_handlers
    on_round_timeout-Ends =
        elim (Option-cases (platform.sign (platform.hash_round (current_round s)))) [
          | inl e ↦ rw (e, ◌>>=◌) (timed_out, omega arith)
          | inr (raw, e) ↦
              let t = record s { round_timer = disable_blame_timers s.round_timer } in
              let u =
                broadcast-IsSound platform ids limit t
                  (blame (current_round s) (record { raw = raw; id = s.my_id })) timed_out.sound in
              rw (e, ◌>>=◌)
                (
                  record {
                    sound = record {
                      lockstep = u.lockstep;
                      synced = u.synced;
                      fair = u.fair;
                      stored = u.stored;
                      addressed = u.addressed;
                      ready = u.ready;
                      arriving = u.arriving;
                      looping =
                          All-append (IsReady platform.base s.chain_state.db) s.tx_msg_loopback _
                            u.looping (tt, tt);
                      small = u.small;
                    };
                    behind = v.behind;
                    certified = v.certified;
                    blames = v.blames;
                  },
                  omega arith,
                )
        ]
