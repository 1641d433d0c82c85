-- ===== src/Zeus/Attestations/Heights.antt =====
-- consensus/src/server/zeus/phases/attestation.rs: the height that an attestation claims.
use leto_rs.Prelude.{
  ℕ, ◌≤◌, ◌<◌, ◌≡◌, refl, sym, ap, ◌∙◌, some, nat_eq, Map, lookup, All-Occurs, Occurs, eq_of_some,
  arith,
}
use mathlib.Core.Path.{subst}
use leto_rs.Zeus.Types.{Attestation}
use leto_rs.Zeus.DataChain.{DataBlockMeta, Cursor, at_meta}
use leto_rs.Zeus.DataChain.Prefix.{IsRanked, IsAncestor, here, parent, Extends}
use leto_rs.Zeus.Attestations.{
  AttestationValidity, valid, AttestationCrypto, ZeusView, attestation_valid,
}
use leto_rs.Zeus.Attestations.Verdicts.{pinned, Verdict, attestation_valid_lem}

-- The index holds each block under its hash.
abbrev pub IsIndexed : Map ℕ DataBlockMeta → Type 0
IsIndexed db = (h : ℕ) (m : DataBlockMeta) → lookup h db ≡ some m → m.hash ≡ h

-- The cursor stands on a stored block.
abbrev IsOnStored : Map ℕ DataBlockMeta → Cursor → Type 0
IsOnStored db cur =
    (m : DataBlockMeta) × (lookup cur.cur_hash db ≡ some m) × (m.height ≡ cur.cur_height)

ancestor_stored :
    (db : Map ℕ DataBlockMeta) (h : ℕ) (cur t : Cursor)
    → IsIndexed db
    → IsOnStored db cur
    → IsAncestor db h cur t
    → IsOnStored db t × (t.cur_height ≤ h)
ancestor_stored db h cur t x o (here _ l) = (o, l)
ancestor_stored db h cur t x o (parent _ m _ l e n) =
    ancestor_stored db h (at_meta m) t x
      (m, subst (λ j. lookup j db ≡ some m) (sym (x cur.cur_parent m e)) e, refl) n

module _ {PublicKey M : Type 0} (crypto : AttestationCrypto PublicKey) where
  -- Over an index that holds each block under its hash and above its parent in a rank: once an
  -- attestation is in the commit lock that claims less than the height of the stored block that it pins, the check accepts
  -- no attestation.
  pub low_claim_blocks :
      (rank : ℕ → ℕ) (z : ZeusView PublicKey M) (p : ℕ × Attestation) (m : DataBlockMeta)
      (att : Attestation) (msg : M)
      → IsRanked rank z.meta
      → Occurs p z.commit_lock
      → lookup p.1.envelope.data_block_hash z.meta ≡ some m
      → p.1.envelope.data_block_height < m.height
      → (r : AttestationValidity) × (t : ZeusView PublicKey M) × (attestation_valid crypto z att msg
          ≡ some (r, t))
        × (r ≡ valid → ⊥)
  low_claim_blocks rank z p m att msg ranked o e l =
      let (r, t, f, v) = attestation_valid_lem crypto rank z att msg ranked in
      (r, t, f, λ q. blocked t (subst (λ a. Verdict crypto a z att msg t) q v))
    where
      blocked : (t : ZeusView PublicKey M) → Verdict crypto valid z att msg t → ⊥
      blocked t (s, u, n, g, k) =
          let (b, c, i, j) = All-Occurs (Extends z.meta (pinned att n)) p z.commit_lock k o in
          let ((y, w, q), d) =
            ancestor_stored z.meta p.1.envelope.data_block_height (pinned att n) c ranked.hashes
              (n, g, refl) i in
          let same : m ≡ y = eq_of_some m y (sym e ∙ (ap (λ h. lookup h z.meta) (sym j) ∙ w)) in
          omega (arith, l, d, q, ap (λ a. a.height) same)
