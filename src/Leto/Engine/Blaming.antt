-- ===== src/Leto/Engine/Blaming.antt =====
-- consensus/src/server/leto/phases/blame.rs: a round that times out is blamed, and a quorum of blames
-- is a certificate that ends it.
pub mod Forming
use leto_rs.Prelude.{
  ℕ, ◌≡◌, Bool, true, false, Option, none, some, List, [], ◌∷◌, ◌++◌, nat_eq, nat_beq,
  if◌then◌else◌, Map, lookup, insert, length,
}
use leto_rs.Prelude.Results.{Handled, ok, failed, panicked, out_of_fuel, ◌>>=◌, or_panic, or_fail}
use leto_rs.Types.{
  Signature, Certificate, ProtocolMsg, blame, blame_qc, verify_without_id_check, verify_certificate,
  empty_certificate, add_signature,
}
use leto_rs.Leto.RoundContext.{disable_blame_timers}
use leto_rs.Leto.ChainState.{add_qc}
use leto_rs.Leto.Engine.{
  Leto, Platform, Server, highest_round, qc_len, current_round, broadcast, advance_round,
}

-- The loop that builds a certificate from the map.
unfoldable pub add_all : Map ℕ Signature → Certificate → Certificate
add_all [] qc = qc
add_all ((origin, auth) ∷ blame_map) qc = add_all blame_map (add_signature qc auth)

module _ {Tx H T R S PublicKey : Type 0} (platform : Platform Tx H T R S PublicKey) where
  open platform use {hash_round, sign, pk_verify}

  unfoldable pub on_round_timeout : Server platform → Handled (Server platform) (Server platform)
  unfolding disable_blame_timers
  on_round_timeout s = do
    let t = record s { round_timer = disable_blame_timers s.round_timer }
    raw ← or_fail t (sign (hash_round (current_round s)))
    let msg : ProtocolMsg Tx = blame (current_round s) (record { raw = raw; id = s.my_id })
    let u = broadcast platform t msg
    ok (record u { tx_msg_loopback = u.tx_msg_loopback ++ msg ∷ [] })

  unfoldable pub handle_blame_qc :
      Server platform → ℕ → Certificate → Handled (Server platform) (Server platform)
  handle_blame_qc s blame_round qc =
      let t =
        broadcast platform (record s { round_context = record s.round_context { got_qc = true } })
          (blame_qc blame_round qc) in
      advance_round platform (record t { chain_state = add_qc t.chain_state blame_round qc })

  -- The signature is added to the set; at `qc_len` signatures the certificate is made of the set.
  unfoldable pub add_blame :
      Server platform → ℕ → Signature → Handled (Server platform) (Server platform)
  unfolding add_all empty_certificate
  add_blame s blame_round auth =
      let blame_map = insert auth.id auth s.round_context.blame_map in
      if nat_beq (length blame_map) (qc_len s)
      then handle_blame_qc
          (record s { round_context = record s.round_context { blame_map = []; got_qc = true } })
          blame_round (add_all blame_map empty_certificate)
      else ok (record s { round_context = record s.round_context { blame_map = blame_map } })

  unfoldable pub handle_blame :
      Server platform → ℕ → Signature → Handled (Server platform) (Server platform)
  handle_blame s blame_round auth =
      if nat_beq (highest_round s) blame_round
      then ok s
      else if s.round_context.got_qc
      then ok s
      else do
        pk ← or_fail s (lookup auth.id s.crypto_system)
        if verify_without_id_check pk_verify auth (hash_round blame_round) pk
            then add_blame s blame_round auth
            else failed s

  unfoldable pub on_blame_qc :
      Server platform → ℕ → Certificate → Handled (Server platform) (Server platform)
  unfolding handle_blame_qc
  on_blame_qc s blame_round qc =
      if s.round_context.got_qc
      then ok s
      else if verify_certificate pk_verify qc (hash_round blame_round) s.crypto_system
      then handle_blame_qc s blame_round qc
      else failed s
