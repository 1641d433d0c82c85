-- ===== src/Zeus/Attestations.antt =====
-- consensus/src/server/zeus/phases/attestation.rs: attestations of the signature chain.
pub mod Verdicts
pub mod Heights
use leto_rs.Prelude.{
  ◌>>=◌, ℕ, ◌-◌, ◌%◌, Bool, true, false, not, ◌&&◌, Option, none, some, List, [], ◌∷◌, nat_eq,
  nat_beq, if◌then◌else◌, Map, lookup, contains_key, unwrap_or,
}
use leto_rs.Leto.RoundContext.{push}
use leto_rs.Zeus.Types.{Attestation, AttestationEnvelope, DataBlockSig}
use leto_rs.Zeus.DataChain.{DataBlockMeta, data_chain_valid, conflicts_data_prefix}

pub data AttestationValidity : Type 0 where
  valid : AttestationValidity
  invalid : AttestationValidity
  parked : ℕ → AttestationValidity

-- The crypto library: the hash of an envelope, its bytes, signing by this server, and verification.
pub record AttestationCrypto (PublicKey : Type 0) : Type 0 where
  pub hash : AttestationEnvelope → ℕ
  pub as_ref : ℕ → List ℕ
  pub sign : List ℕ → Option (List ℕ)
  pub verify : PublicKey → List ℕ → List ℕ → Bool

-- The fields of `Zeus` that attestations read and write; `M` is the type of messages, and `meta` the
-- index of the block store.
pub record ZeusView (PublicKey M : Type 0) : Type 0 where
  pub my_id : ℕ
  pub signature_epoch : ℕ
  pub head_hash : ℕ
  pub head_height : ℕ
  pub highest_hash : ℕ
  pub system : Map ℕ PublicKey
  pub meta : Map ℕ DataBlockMeta
  pub commit_lock : List (ℕ × Attestation)
  pub pending_attestations : Map ℕ (List M)

head_epoch : Option DataBlockMeta → ℕ
head_epoch none = 0
head_epoch (some m) = m.epoch

module _ {PublicKey : Type 0} (crypto : AttestationCrypto PublicKey) where
  open crypto use {hash, as_ref, verify}

  -- The signature check of `attestation_valid`.
  unfoldable pub signature_valid : Option PublicKey → Attestation → Bool
  signature_valid none att = false
  signature_valid (some pk) att = verify pk (as_ref (hash att.envelope)) att.sig_s.raw

module _ {PublicKey M : Type 0} where
  -- The last step of `attestation_valid`; `none` is a walk out of fuel.
  unfoldable pub prefix_check :
      ZeusView PublicKey M → Attestation → Option DataBlockMeta → Option AttestationValidity
  prefix_check z att none =
      if nat_beq att.envelope.data_block_height 0 && nat_beq att.envelope.data_block_epoch 0
      then some valid
      else some invalid
  prefix_check z att (some m) = do
    conflict ←
        conflicts_data_prefix att.envelope.data_block_hash m.height m.parent_hash z.commit_lock
          z.meta
    some (if conflict then invalid else valid)

  unfoldable pub park : ZeusView PublicKey M → ℕ → M → ZeusView PublicKey M
  park z h msg = record z { pending_attestations = push h msg z.pending_attestations }

module _ {PublicKey M : Type 0} (crypto : AttestationCrypto PublicKey) where
  open crypto use {hash, as_ref, sign}

  -- `make_attestation`; `none` is an error of `sign`.
  unfoldable pub make_attestation : ZeusView PublicKey M → ℕ → Option Attestation
  unfolding head_epoch
  make_attestation z r_s =
      let envelope : AttestationEnvelope = record {
        epoch_s = z.signature_epoch;
        round_s = r_s;
        data_block_hash = z.head_hash;
        data_block_height = z.head_height;
        data_block_epoch = head_epoch (lookup z.head_hash z.meta);
        parent_hash_s = z.highest_hash;
      } in
      do
        raw ← sign (as_ref (hash envelope))
        some (record { envelope = envelope; sig_s = record { raw = raw; signer = z.my_id } })

  -- `attestation_valid`
  unfoldable pub attestation_valid :
      ZeusView PublicKey M → Attestation → M → Option (AttestationValidity × ZeusView PublicKey M)
  attestation_valid z att parked_msg =
      let is_genesis =
        nat_beq att.envelope.data_block_height 0 && nat_beq att.envelope.data_block_epoch 0 in
      let d_hash = att.envelope.data_block_hash in
      if not (signature_valid crypto (lookup att.sig_s.signer z.system) att)
      then some (invalid, z)
      else if not is_genesis && not (contains_key d_hash z.meta)
      then some (parked d_hash, park z d_hash parked_msg)
      else if not (data_chain_valid d_hash z.meta)
      then some (parked d_hash, park z d_hash parked_msg)
      else do verdict ← prefix_check z att (lookup d_hash z.meta); some (verdict, z)

-- `sig_leader_for_round`, for the number of nodes; `none` is the division by zero. A round fits `usize`
-- on 64 bits, which `Id` is.
unfoldable sig_leader_for_round : ℕ → ℕ → Option ℕ
sig_leader_for_round num_nodes r = if nat_beq num_nodes 0 then none else some ((r - 1) % num_nodes)
