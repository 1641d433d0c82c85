-- ===== src/Leto/RoundContext/Order.antt =====
-- consensus/src/server/leto/round_context.rs: the order of the messages of a round.
use leto_rs.Prelude.{
  ℕ, ◌<◌, ◌≡◌, refl, ap, List, [], ◌∷◌, ◌++◌, map, nat_eq, nat_beq, nat_beq_iff, ltb, if◌then◌else◌,
  Map, lookup-insert, arith,
}
use mathlib.Core.List.{append-nil, append_assoc}
use leto_rs.Types.{ProtocolMsg, propose, blame_qc}
use leto_rs.Leto.RoundContext.{
  PropMsg, BlameMsg, BlameQcMsg, queue_at, push, push_all, as_propose, as_blame, as_blame_qc,
}

pub queue_at-push :
    {A : Type 0} (q r : ℕ) (a : A) (m : Map ℕ (List A))
    → queue_at q (push r a m) ≡ (if nat_beq r q then queue_at r m ++ a ∷ [] else queue_at q m)
unfolding push
queue_at-push q r a m = ground (arith, lookup-insert q r (queue_at r m ++ a ∷ []) m)

pub queue_at-push_all :
    {A : Type 0} (q r : ℕ) (xs : List A) (m : Map ℕ (List A))
    → queue_at q (push_all r xs m) ≡ (if nat_beq r q then queue_at q m ++ xs else queue_at q m)
unfolding push_all
queue_at-push_all q r [] m = ground (arith, append-nil (queue_at q m))
queue_at-push_all q r (x ∷ xs) m = ground (
  arith,
  nat_beq_iff r q,
  queue_at-push_all q r xs (push r x m),
  queue_at-push q r x m,
  append_assoc (queue_at q m) (x ∷ []) xs,
)

module _ {Tx : Type 0} where
  -- In a round the proposals come first, then the blame certificates, then the blames.
  abbrev pub rank : ProtocolMsg Tx → ℕ
  rank (propose proposal auth batch sender) = 0
  rank (blame_qc round qc) = 1
  rank _ = 2

  -- Behind the messages of its kind.
  abbrev pub place : ProtocolMsg Tx → List (ProtocolMsg Tx) → List (ProtocolMsg Tx)
  place m [] = m ∷ []
  place m (x ∷ xs) = if ltb (rank m) (rank x) then m ∷ x ∷ xs else x ∷ place m xs

  pub place_blame :
      (b : BlameMsg) (bs : List BlameMsg)
      → place (as_blame b) (map as_blame bs) ≡ map as_blame (bs ++ b ∷ [])
  place_blame b [] = refl
  place_blame b (x ∷ bs) = ap (◌∷◌ (as_blame x)) (place_blame b bs)

  pub place_blame_behind :
      (b : BlameMsg) (ps : List (PropMsg Tx)) (qs : List BlameQcMsg) (xs : List (ProtocolMsg Tx))
      → place (as_blame b) (map as_propose ps ++ (map as_blame_qc qs ++ xs))
        ≡ map as_propose ps ++ (map as_blame_qc qs ++ place (as_blame b) xs)
  place_blame_behind b [] [] xs = refl
  place_blame_behind b [] (q ∷ qs) xs = ap (◌∷◌ (as_blame_qc q)) (place_blame_behind b [] qs xs)
  place_blame_behind b (p ∷ ps) qs xs = ap (◌∷◌ (as_propose p)) (place_blame_behind b ps qs xs)

  place_before_blames :
      (m : ProtocolMsg Tx) (bs : List BlameMsg)
      → rank m < 2
      → place m (map as_blame bs) ≡ m ∷ map as_blame bs
  place_before_blames m [] h = refl
  place_before_blames m (b ∷ bs) h = ground arith

  pub place_blame_qc :
      (q : BlameQcMsg) (ps : List (PropMsg Tx)) (qs : List BlameQcMsg) (bs : List BlameMsg)
      → place (as_blame_qc q) (map as_propose ps ++ (map as_blame_qc qs ++ map as_blame bs))
        ≡ map as_propose ps ++ (map as_blame_qc (qs ++ q ∷ []) ++ map as_blame bs)
  place_blame_qc q [] [] bs = place_before_blames (as_blame_qc q) bs (omega arith)
  place_blame_qc q [] (x ∷ qs) bs = ap (◌∷◌ (as_blame_qc x)) (place_blame_qc q [] qs bs)
  place_blame_qc q (p ∷ ps) qs bs = ap (◌∷◌ (as_propose p)) (place_blame_qc q ps qs bs)

  pub place_propose :
      (p : PropMsg Tx) (ps : List (PropMsg Tx)) (qs : List BlameQcMsg) (bs : List BlameMsg)
      → place (as_propose p) (map as_propose ps ++ (map as_blame_qc qs ++ map as_blame bs))
        ≡ map as_propose (ps ++ p ∷ []) ++ (map as_blame_qc qs ++ map as_blame bs)
  place_propose p [] [] bs = place_before_blames (as_propose p) bs (omega arith)
  place_propose p [] (x ∷ qs) bs = refl
  place_propose p (x ∷ ps) qs bs = ap (◌∷◌ (as_propose x)) (place_propose p ps qs bs)
