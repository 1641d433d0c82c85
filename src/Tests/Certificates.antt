-- ===== src/Tests/Certificates.antt =====
-- consensus/src/types/cert.rs: a certificate without signatures.
use leto_rs.Prelude.{ℕ, ◌≡◌, ◌↔◌, refl, Bool, true, false, List, [], ◌∷◌, nat_beq, nat_eq, All}
use leto_rs.Types.{Certificate, verify_certificate, empty_certificate, verify_sigs}
use leto_rs.Types.Verification.{IsSignedIn, verify_certificate_lem}

abbrev check : ℕ → ℕ → List ℕ → Bool
check pk msg_hash raw = elim raw [ [] ↦ false | x ∷ xs ↦ nat_beq x pk ]

abbrev one : Certificate
one = record { raw_sigs = record { raw = 7 ∷ []; id = 1 } ∷ [] }

verify_certificate_lem_example :
    (verify_certificate check one 3 ((1, 7) ∷ []) ≡ true)
    ↔ All (IsSignedIn check ((1, 7) ∷ []) 3) one.raw_sigs
verify_certificate_lem_example = verify_certificate_lem check one 3 ((1, 7) ∷ [])

empty_accepted : verify_certificate check empty_certificate 3 [] ≡ true
unfolding verify_certificate empty_certificate verify_sigs
empty_accepted = refl
