-- ===== src/Types/Signers.antt =====
-- consensus/src/types/cert.rs: the number of different signers of a certificate.
use leto_rs.Prelude.{
  ℕ, ◌≡◌, refl, ap, ◌∙◌, false, List, [], ◌∷◌, map, nat_eq, set_contains, set_insert, length, arith,
}
use leto_rs.Types.{Signature, Certificate, signers, unique_len}
use leto_rs.Types.Quorum.{IsDistinct}

abbrev pub ids : List Signature → List ℕ
ids sigs = map (λ sig. sig.id) sigs

length-ids : (sigs : List Signature) → length (ids sigs) ≡ length sigs
length-ids [] = refl
length-ids (sig ∷ sigs) = omega (arith, length-ids sigs)

insert_fresh : (x : ℕ) (s : List ℕ) → set_contains x s ≡ false → set_insert x s ≡ x ∷ s
unfolding set_insert
insert_fresh x s h = rw (h) refl

signers_distinct : (sigs : List Signature) → IsDistinct (ids sigs) → signers sigs ≡ ids sigs
unfolding signers
signers_distinct [] d = refl
signers_distinct (sig ∷ sigs) d =
    rw (signers_distinct sigs d.1) (insert_fresh sig.id (ids sigs) d.0)

-- Signatures of different servers are all counted.
pub unique_len_distinct :
    (qc : Certificate) → IsDistinct (ids qc.raw_sigs) → unique_len qc ≡ length qc.raw_sigs
unfolding unique_len
unique_len_distinct qc d = ap length (signers_distinct qc.raw_sigs d) ∙ length-ids qc.raw_sigs
