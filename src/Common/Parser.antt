-- ===== src/Common/Parser.antt =====
-- Readers that may fail: a step on a cursor of type `S`.
use mathlib.Core.Path.{◌≡◌, refl}
use mathlib.Core.Bool.{Bool, true, false}
use mathlib.Core.Option.{Option, none, some}

abbrev pub Parser : Type 0 → Type 0 → Type 0
Parser S A = S → Option (A × S)

module _ {S A : Type 0} where
  abbrev pub pure : A → Parser S A
  pure a s = some (a, s)

module _ {S A B : Type 0} where
  abbrev pub continue : Option (A × S) → (A → Parser S B) → Option (B × S)
  continue none f = none
  continue (some (a, s)) f = f a s

  infixl 5 ◌>>=◌ ◌>>◌
  abbrev pub ◌>>=◌ : Parser S A → (A → Parser S B) → Parser S B
  ◌>>=◌ m f s = continue (m s) f

  abbrev pub ◌>>◌ : Parser S A → Parser S B → Parser S B
  m >> n = m >>= λ _. n

module _ {S : Type 0} where
  abbrev pub guard : Bool → Parser S (Unit {0})
  guard true s = some (tt, s)
  guard false s = none

module _ {S A B : Type 0} where
  -- A bind that succeeds went through both steps.
  pub continue_inv :
      (x : Option (A × S)) (f : A → Parser S B) (q : B × S)
      → continue x f ≡ some q
      → (a : A) × (s : S) × (x ≡ some (a, s)) × (f a s ≡ some q)
  continue_inv none f q h = cc
  continue_inv (some (a, s)) f q h = (a, s, refl, h)
