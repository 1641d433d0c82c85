-- ===== src/Tests/ZeusServer.antt =====
-- consensus/src/server/zeus: the theorems on the server at a committee of four.
use leto_rs.Prelude.{
  ℕ, ◌+◌, ◌*◌, ◌<◌, ◌≡◌, ◌⊎◌, refl, true, false, none, some, List, [], ◌∷◌, nat_eq, nat_beq, Map,
  lookup, insert, length, Occurs, set_contains, set_insert, set_remove, retain, wrapping_add, arith,
}
use leto_rs.Prelude.Results.{ok, failed, panicked, out_of_fuel, Leaves}
use leto_rs.Leto.RoundContext.{push}
use leto_rs.Leto.LeaderContext.{LeaderContext}
use leto_rs.Zeus.Types.{DataBlockEnvelope, EleaderBlame, EleaderChangeQc, silence, silent_since}
use leto_rs.Zeus.Messages.{eleader_blame}
use leto_rs.Zeus.Rounds.{add_handlers}
use leto_rs.Zeus.DataChain.{
  eleader, eleader_blame_valid, blame_signed_bytes, signed_parts, reason_valid,
  eleader_change_qc_valid, check_blames, latest_committed_attestation,
}
use leto_rs.Zeus.Engine.{
  Platform, Server, crypto, broadcast, send_all, arm_data_timer, set_data_timer,
}
use leto_rs.Zeus.Engine.Start.{spawn, begin, started, initial_data, initial_chain}
use leto_rs.Zeus.Engine.Loop.{Event, net_msg, run, step, dispatch}
use leto_rs.Zeus.Engine.Changing.{
  on_eleader_blame, accept_blame, already_have, same_reason, try_form_change_qc, form_change_qc,
  signers, leave_epoch, advance_to_epoch, d_star, truncate, purge_blocks, start_batcher,
  admit_change_qc,
}
use leto_rs.Zeus.Engine.Invariant.{Config, Holds}
use leto_rs.Zeus.Engine.Invariant.Starting.{sound_from_start, epoch_ended_by_honest}
use leto_rs.Tests.Leaders.{first, ids, made, begun}
use leto_rs.Tests.Encoding.{Disk, sig_database}

-- Server 1. A signature starts with the key; a block's hash has its parent's in front.
abbrev pub toy : Platform ℕ ℕ ℕ ℕ Disk ℕ
toy = record {
  hash_envelope = λ e. e.parent_hash * 100 + e.height * 10 + (e.epoch + 1);
  hash_attestation = λ a. a.round_s;
  hash_blame = λ b. b.epoch;
  hash_round = λ r. r;
  hash_proposal = λ p. p.round;
  empty_hash = 0;
  as_ref = λ h. h ∷ [];
  sign = λ digest. some (1 ∷ digest);
  verify = λ pk digest raw. elim raw [ [] ↦ false | x ∷ xs ↦ nat_beq x pk ];
  serialize_block = λ b. some [];
  base = sig_database;
  read_block = λ h. none;
  choice = first;
  reset = λ t. 0;
  gc_depth = 16;
  handler = λ net peer msg. some peer;
}

abbrev pub keys : Map ℕ ℕ
keys = (0, 0) ∷ (1, 1) ∷ (2, 2) ∷ (3, 3) ∷ []

pub ranked : (e : DataBlockEnvelope ℕ) → e.parent_hash < toy.hash_envelope e
ranked e = omega arith

abbrev pub silence_by : ℕ → EleaderBlame ℕ
silence_by i = record {
  epoch = 1;
  reason = silence;
  payload = silent_since 0;
  signer = i;
  sig_raw = i ∷ [];
}

-- Two of four servers blame the eleader of epoch 1.
abbrev pub events : List (Event ℕ)
events = net_msg (eleader_blame (silence_by 0)) ∷ net_msg (eleader_blame (silence_by 2)) ∷ []

abbrev config : Config ℕ
config = record { system = keys; num_faults = 1; num_nodes = 4 }

abbrev start : Server toy
start = started toy 1 keys ids 1 ids 0 [] begun

sound_from_start_example :
    (s : Server toy) × (spawn toy 1 keys ids 1 ids 0 0 [] ≡ some s)
    × Leaves (Holds toy (λ h. h) config) (run toy (begin toy s) events)
sound_from_start_example =
    sound_from_start toy (λ h. h) ranked 1 keys ids 1 ids 0 0 [] events begun made.1

abbrev pub leaders : LeaderContext ℕ
leaders = record {
  rng = 0;
  current_round = 0;
  elligible = 2 ∷ 3 ∷ [];
  history = 0 ∷ 1 ∷ [];
  current_leader = 0;
  next_leader = 3;
}

abbrev pub calm : Server toy
calm = started toy 1 keys ids 1 ids 0 [] leaders

-- The server in epoch 2.
abbrev after : Server toy
after = elim (run toy (begin toy calm) events) [
  | ok t ↦ t
  | failed t ↦ t
  | panicked ↦ calm
  | out_of_fuel ↦ calm
]

ended :
    (run toy (begin toy calm) events ≡ ok after)
    × (after.data_plane.current_epoch ≡ 2)
    × (length after.data_plane.tx_consensus_to_batcher ≡ 1)
unfolding run step begin started dispatch on_eleader_blame eleader_blame_valid lookup
    blame_signed_bytes signed_parts reason_valid accept_blame already_have same_reason push insert
    try_form_change_qc form_change_qc signers set_insert set_contains eleader_change_qc_valid
    check_blames eleader broadcast send_all add_handlers leave_epoch advance_to_epoch d_star
    latest_committed_attestation truncate purge_blocks retain arm_data_timer set_data_timer
    start_batcher wrapping_add admit_change_qc set_remove initial_data initial_chain
ended = (refl, refl, refl)

epoch_ended_by_honest_example :
    (after.data_plane.current_epoch ≡ 1)
    ⊎ ((epoch : ℕ) × (qc : EleaderChangeQc ℕ) × (b : EleaderBlame ℕ)
        × (after.data_plane.current_epoch ≡ wrapping_add epoch 1)
        × (lookup epoch after.admitted_change_qcs ≡ some qc)
        × Occurs b qc.blames
        × (set_contains b.signer (2 ∷ []) ≡ false)
        × (b.epoch ≡ epoch)
        × (eleader_blame_valid (crypto toy) b keys (eleader epoch 4) ≡ some true))
epoch_ended_by_honest_example =
    epoch_ended_by_honest toy (λ h. h) ranked 1 keys ids 1 ids 0 0 [] events leaders after (2 ∷ [])
      ended.0 (omega arith)
