-- ===== src/Zeus/DataChain/Quorum.antt =====
-- consensus/src/server/zeus/chain_state/data_chain.rs: what an eleader change certificate proves.
use leto_rs.Prelude.{
  ℕ, ◌≤◌, ◌<◌, ◌≡◌, refl, ◌↔◌, ◌⊎◌, inl, inr, true, false, Option, none, some, List, [], ◌∷◌,
  nat_eq, nat_beq, nat_beq_iff, Map, set_contains, set_insert, contains-set_insert, length, All,
  All-Occurs, Occurs, Bool-cases, arith,
}
use leto_rs.Types.Quorum.{IsDistinct, IsDistinct-insert, honest_member}
use leto_rs.Zeus.Types.{EleaderBlame, EleaderChangeQc}
use leto_rs.Zeus.DataChain.{
  Crypto, eleader, eleader_blame_valid, check_blames, eleader_change_qc_valid,
}

abbrev pub signers_into : {Tx : Type 0} → List (EleaderBlame Tx) → List ℕ → List ℕ
signers_into [] seen = seen
signers_into (b ∷ bs) seen = signers_into bs (set_insert b.signer seen)

module _ {Tx PublicKey : Type 0} (crypto : Crypto Tx PublicKey) where
  -- The blame is of the epoch and valid.
  abbrev pub IsValidBlame : ℕ → Map ℕ PublicKey → ℕ → EleaderBlame Tx → Type 0
  IsValidBlame epoch pk_map leader b =
      (b.epoch ≡ epoch) × (eleader_blame_valid crypto b pk_map leader ≡ some true)

  check_blames_lem :
      (bs : List (EleaderBlame Tx)) (epoch : ℕ) (pk_map : Map ℕ PublicKey) (leader : ℕ)
      (seen all_seen : List ℕ)
      → (check_blames crypto bs epoch pk_map leader seen ≡ some (some all_seen))
        ↔ (All (IsValidBlame epoch pk_map leader) bs × (signers_into bs seen ≡ all_seen))
  unfolding check_blames
  check_blames_lem [] epoch pk_map leader seen all_seen =
      ((λ h. (tt, ground (arith, h))), λ (t, h). ground (arith, h))
  check_blames_lem (b ∷ bs) epoch pk_map leader seen all_seen =
      let i = check_blames_lem bs epoch pk_map leader (set_insert b.signer seen) all_seen in
      (
        (λ h. (((ground arith, ground arith), (i.0 (ground arith)).0), (i.0 (ground arith)).1)),
        λ (((e, v), k), s). ground (arith, e, v, nat_beq_iff b.epoch epoch, i.1 (k, s)),
      )

signers-IsDistinct :
    {Tx : Type 0} (bs : List (EleaderBlame Tx)) (seen : List ℕ)
    → IsDistinct seen
    → IsDistinct (signers_into bs seen)
signers-IsDistinct [] seen d = d
signers-IsDistinct (b ∷ bs) seen d =
    signers-IsDistinct bs (set_insert b.signer seen) (IsDistinct-insert b.signer seen d)

signer_blames :
    {Tx : Type 0} (i : ℕ) (bs : List (EleaderBlame Tx)) (seen : List ℕ)
    → set_contains i (signers_into bs seen) ≡ true
    → (set_contains i seen ≡ true) ⊎ ((b : EleaderBlame Tx) × Occurs b bs × (b.signer ≡ i))
signer_blames i [] seen h = inl h
signer_blames i (b ∷ bs) seen h = elim (signer_blames i bs (set_insert b.signer seen) h) [
  | inr (c, o, e) ↦ inr (c, inr o, e)
  | inl m ↦ elim (Bool-cases (nat_beq b.signer i)) [
    | inl e ↦ inr (b, inl refl, (nat_beq_iff b.signer i).0 e)
    | inr e ↦ inl (ground (arith, m, e, contains-set_insert i b.signer seen))
  ]
]

not_in_empty : (i : ℕ) → set_contains i [] ≡ true → ⊥
unfolding set_contains
not_in_empty i e = cc

module _ {Tx PublicKey : Type 0} (crypto : Crypto Tx PublicKey) where
  -- A certificate is accepted exactly if all its blames are valid blames of its epoch, against the
  -- leader of that epoch, and more than `num_faults` different servers signed them.
  pub eleader_change_qc_valid_lem :
      (qc : EleaderChangeQc Tx) (pk_map : Map ℕ PublicKey) (num_faults num_nodes : ℕ)
      → (eleader_change_qc_valid crypto qc pk_map num_faults num_nodes ≡ some true) ↔ (
          All (IsValidBlame crypto qc.epoch pk_map (eleader qc.epoch num_nodes)) qc.blames
          × (num_faults < length (signers_into qc.blames [])))
  unfolding eleader_change_qc_valid
  eleader_change_qc_valid_lem qc pk_map num_faults num_nodes =
      let leader = eleader qc.epoch num_nodes in
      let i = check_blames_lem crypto qc.blames qc.epoch pk_map leader [] in
      (
        (λ h. accepted (check_blames crypto qc.blames qc.epoch pk_map leader []) refl h),
        λ (k, l). ground (arith, l, (i (signers_into qc.blames [])).1 (k, refl)),
      )
    where
      accepted :
          (o : Option (Option (List ℕ)))
          → check_blames crypto qc.blames qc.epoch pk_map (eleader qc.epoch num_nodes) [] ≡ o
          → eleader_change_qc_valid crypto qc pk_map num_faults num_nodes ≡ some true
          → All (IsValidBlame crypto qc.epoch pk_map (eleader qc.epoch num_nodes)) qc.blames
            × (num_faults < length (signers_into qc.blames []))
      accepted none e h = cc
      accepted (some none) e h = cc
      accepted (some (some seen)) e h =
          let (k, s) =
            (check_blames_lem crypto qc.blames qc.epoch pk_map (eleader qc.epoch num_nodes) []
                seen).0
              e in
          (k, rw s (ground (arith, e, h)))

  -- Of an accepted certificate, at least one blame is a valid blame of the epoch by a server outside
  -- `faulty`, where there are at most `num_faults` faulty servers: faulty servers alone cannot depose
  -- a leader.
  pub honest_blamer :
      (qc : EleaderChangeQc Tx) (pk_map : Map ℕ PublicKey) (num_faults num_nodes : ℕ)
      (faulty : List ℕ)
      → eleader_change_qc_valid crypto qc pk_map num_faults num_nodes ≡ some true
      → length faulty ≤ num_faults
      → (b : EleaderBlame Tx) × Occurs b qc.blames
        × (set_contains b.signer faulty ≡ false)
        × (b.epoch ≡ qc.epoch)
        × (eleader_blame_valid crypto b pk_map (eleader qc.epoch num_nodes) ≡ some true)
  honest_blamer qc pk_map num_faults num_nodes faulty h l =
      let (k, q) = (eleader_change_qc_valid_lem qc pk_map num_faults num_nodes).0 h in
      let (i, m, n) =
        honest_member (signers_into qc.blames []) faulty (signers-IsDistinct qc.blames [] tt)
          (omega arith) in
      elim (signer_blames i qc.blames [] m) [
        | inl e ↦ elim (not_in_empty i e) [ ]
        | inr (b, o, e) ↦
            let (p, v) =
              All-Occurs (IsValidBlame crypto qc.epoch pk_map (eleader qc.epoch num_nodes)) b
                qc.blames k o in
            (b, o, rw e n, p, v)
      ]
