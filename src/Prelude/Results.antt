-- ===== src/Prelude/Results.antt =====
-- What a handler that mutates its object ends in.
use mathlib.Core.Path.{◌≡◌, refl}
use mathlib.Core.Option.{Option, none, some}
use mathlib.Core.Bool.{Bool, true, false}
use leto_rs.Prelude.Tests.{if◌then◌else◌}

-- `failed` is an error, with the state that is left; `panicked` an `unwrap`, an `expect` or an
-- index out of range; `out_of_fuel` is no end of the program's.
pub data Handled (S A : Type 0) : Type 0 where
  ok : A → Handled S A
  failed : S → Handled S A
  panicked : Handled S A
  out_of_fuel : Handled S A

module _ {S A : Type 0} where
  infixl 5 ◌>>=◌
  abbrev pub ◌>>=◌ : {B : Type 0} → Handled S A → (A → Handled S B) → Handled S B
  ok a >>= f = f a
  failed s >>= f = failed s
  panicked >>= f = panicked
  out_of_fuel >>= f = out_of_fuel

  -- `unwrap`
  abbrev pub or_panic : Option A → Handled S A
  or_panic none = panicked
  or_panic (some a) = ok a

  -- `ok_or_else(..)?` in the state
  abbrev pub or_fail : S → Option A → Handled S A
  or_fail s none = failed s
  or_fail s (some a) = ok a

-- The loop of the server logs an error and goes on.
abbrev pub logged : {S : Type 0} → Handled S S → Handled S S
logged (ok s) = ok s
logged (failed s) = ok s
logged panicked = panicked
logged out_of_fuel = out_of_fuel

module _ {S A : Type 0} where
  -- A chain that ends well has a first step that does.
  pub bind_ok :
      {B : Type 0} (m : Handled S A) (f : A → Handled S B) (b : B)
      → (m >>= f) ≡ ok b
      → (a : A) × (m ≡ ok a) × (f a ≡ ok b)
  bind_ok (ok a) f b e = (a, refl, e)
  bind_ok (failed s) f b e = cc
  bind_ok panicked f b e = cc
  bind_ok out_of_fuel f b e = cc

  pub or_panic_ok : (o : Option A) (a : A) → or_panic {S = S} o ≡ ok a → o ≡ some a
  or_panic_ok none a e = cc
  or_panic_ok (some b) a e = cc

  pub or_fail_ok : (s : S) (o : Option A) (a : A) → or_fail s o ≡ ok a → o ≡ some a
  or_fail_ok s none a e = cc
  or_fail_ok s (some b) a e = cc

  pub eq_of_ok : (a b : A) (m : Handled S A) → m ≡ ok a → m ≡ ok b → a ≡ b
  eq_of_ok a b m e f = cc

-- The state that a handler leaves, if it does not panic; it does not run out of fuel.
abbrev pub Leaves : {S : Type 0} → (S → Type 0) → Handled S S → Type 0
Leaves P (ok s) = P s
Leaves P (failed s) = P s
Leaves P panicked = Unit
Leaves P out_of_fuel = ⊥

-- The handler does not panic either.
abbrev pub Ends : {S : Type 0} → (S → Type 0) → Handled S S → Type 0
Ends P (ok s) = P s
Ends P (failed s) = P s
Ends P panicked = ⊥
Ends P out_of_fuel = ⊥

module _ {S : Type 0} (P : S → Type 0) where
  pub Leaves-logged : (m : Handled S S) → Leaves P m → Leaves P (logged m)
  Leaves-logged (ok s) h = h
  Leaves-logged (failed s) h = h
  Leaves-logged panicked h = h
  Leaves-logged out_of_fuel h = h

  pub Ends-logged : (m : Handled S S) → Ends P m → Ends P (logged m)
  Ends-logged (ok s) h = h
  Ends-logged (failed s) h = h
  Ends-logged panicked h = h
  Ends-logged out_of_fuel h = h

  pub Ends-Leaves : (m : Handled S S) → Ends P m → Leaves P m
  Ends-Leaves (ok s) h = h
  Ends-Leaves (failed s) h = h
  Ends-Leaves panicked h = tt
  Ends-Leaves out_of_fuel h = h

module _ {S : Type 0} (P Q : S → Type 0) (f : (s : S) → P s → Q s) where
  pub Ends-map : (m : Handled S S) → Ends P m → Ends Q m
  Ends-map (ok s) h = f s h
  Ends-map (failed s) h = f s h
  Ends-map panicked h = h
  Ends-map out_of_fuel h = h

  pub Leaves-map : (m : Handled S S) → Leaves P m → Leaves Q m
  Leaves-map (ok s) h = f s h
  Leaves-map (failed s) h = f s h
  Leaves-map panicked h = h
  Leaves-map out_of_fuel h = h

pub Ends-bind :
    {S : Type 0} (P Q : S → Type 0) (m : Handled S S) (f : S → Handled S S)
    → Ends P m
    → ((s : S) → P s → Q s)
    → ((s : S) → m ≡ ok s → P s → Leaves Q (f s))
    → Leaves Q (m >>= f)
Ends-bind P Q (ok s) f h k g = g s refl h
Ends-bind P Q (failed s) f h k g = k s h
Ends-bind P Q panicked f h k g = tt
Ends-bind P Q out_of_fuel f h k g = h

pub Leaves-bind :
    {S : Type 0} (P Q : S → Type 0) (m : Handled S S) (f : S → Handled S S)
    → Leaves P m
    → ((s : S) → P s → Q s)
    → ((s : S) → P s → Leaves Q (f s))
    → Leaves Q (m >>= f)
Leaves-bind P Q (ok s) f h k g = g s h
Leaves-bind P Q (failed s) f h k g = k s h
Leaves-bind P Q panicked f h k g = tt
Leaves-bind P Q out_of_fuel f h k g = h

module _ {S : Type 0} (P : S → Type 0) where
  pub Leaves-seq :
      (m : Handled S S) (f : S → Handled S S)
      → Leaves P m
      → ((s : S) → P s → Leaves P (f s))
      → Leaves P (m >>= f)
  Leaves-seq m f h g = Leaves-bind P P m f h (λ s p. p) g

  pub Leaves-or_fail :
      {A : Type 0} (s : S) (o : Option A) (f : A → Handled S S)
      → P s
      → ((a : A) → o ≡ some a → Leaves P (f a))
      → Leaves P (or_fail s o >>= f)
  Leaves-or_fail s none f h g = h
  Leaves-or_fail s (some a) f h g = g a refl

  pub Leaves-or_panic :
      {A : Type 0} (o : Option A) (f : A → Handled S S)
      → ((a : A) → o ≡ some a → Leaves P (f a))
      → Leaves P (or_panic o >>= f)
  Leaves-or_panic none f g = tt
  Leaves-or_panic (some a) f g = g a refl

  pub Leaves-if :
      (b : Bool) (m n : Handled S S)
      → (b ≡ true → Leaves P m)
      → (b ≡ false → Leaves P n)
      → Leaves P (if b then m else n)
  Leaves-if true m n h k = h refl
  Leaves-if false m n h k = k refl

  -- The case of an optional value.
  pub Leaves-option :
      {A : Type 0} (o : Option A) (m : Handled S S) (f : A → Handled S S)
      → (o ≡ none → Leaves P m)
      → ((a : A) → o ≡ some a → Leaves P (f a))
      → Leaves P (elim o [ none ↦ m | some a ↦ f a ])
  Leaves-option none m f h g = h refl
  Leaves-option (some a) m f h g = g a refl
