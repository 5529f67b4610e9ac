-- ===== src/Common/Subsequence.antt =====
-- Subsequences, and lists of numbered items whose numbers rise.
use Prim.Native.Nat.{ℕ, ◌<◌, ◌≤◌}
use mathlib.Core.Path.{◌≡◌, ap, subst}
use mathlib.Core.Logic.{◌⊎◌, inl, inr}
use mathlib.Core.List.{List, [], ◌∷◌, map}
use native.Mathlib.Omega.{arith}
use atxp.Common.Lists.{All}

module _ {A : Type 0} where
  abbrev pub IsIn : A → List A → Type 0
  IsIn x [] = ⊥
  IsIn x (y ∷ ys) = (y ≡ x) ⊎ IsIn x ys

module _ {ℓ} {A : Type ℓ} where
  -- `xs` is `ys` with items left out, in the order of `ys`.
  pub data Subsequence : List A → List A → Type ℓ where
    done : Subsequence [] []
    skip : {xs ys : List A} (y : A) → Subsequence xs ys → Subsequence xs (y ∷ ys)
    keep : {xs ys : List A} (y : A) → Subsequence xs ys → Subsequence (y ∷ xs) (y ∷ ys)

  pub Subsequence-nil : (ys : List A) → Subsequence [] ys
  Subsequence-nil [] = done
  Subsequence-nil (y ∷ ys) = skip y (Subsequence-nil ys)

module _ {ℓ κ} {A : Type ℓ} {B : Type κ} (f : A → B) where
  pub Subsequence-map : {xs ys : List A} → Subsequence xs ys → Subsequence (map f xs) (map f ys)
  Subsequence-map done = done
  Subsequence-map (skip y s) = skip (f y) (Subsequence-map s)
  Subsequence-map (keep y s) = keep (f y) (Subsequence-map s)

module _ {A : Type 0} (P : A → Type 0) where
  pub All-IsIn : (x : A) (xs : List A) → All P xs → IsIn x xs → P x
  All-IsIn x [] h i = absurd i
  All-IsIn x (y ∷ ys) h (inl e) = subst P e h.0
  All-IsIn x (y ∷ ys) h (inr i) = All-IsIn x ys h.1 i

module _ {A B : Type 0} (f : A → B) where
  pub IsIn-map : (x : A) (xs : List A) → IsIn x xs → IsIn (f x) (map f xs)
  IsIn-map x [] i = absurd i
  IsIn-map x (y ∷ ys) (inl e) = inl (ap f e)
  IsIn-map x (y ∷ ys) (inr i) = inr (IsIn-map x ys i)

module _ {A : Type 0} where
  -- The numbers of the items rise strictly, from above `lo`.
  abbrev pub Ascends : ℕ → List (ℕ × A) → Type 0
  Ascends lo [] = Unit
  Ascends lo (x ∷ xs) = (lo < x.0) × Ascends x.0 xs

  pub Ascends-mono : (lo hi : ℕ) (xs : List (ℕ × A)) → lo ≤ hi → Ascends hi xs → Ascends lo xs
  Ascends-mono lo hi [] le h = tt
  Ascends-mono lo hi (x ∷ xs) le h = (omega arith, h.1)

  Ascends-above : (lo hi : ℕ) (xs : List (ℕ × A)) → lo ≤ hi → Ascends hi xs → All (λ x. lo < x.0) xs
  Ascends-above lo hi [] le h = tt
  Ascends-above lo hi (x ∷ xs) le h = (omega arith, Ascends-above lo x.0 xs (omega arith) h.1)

  IsIn-above :
      (lo : ℕ) (x : ℕ × A) (xs : List (ℕ × A)) → All (λ y. lo < y.0) xs → IsIn x xs → lo < x.0
  IsIn-above lo x [] h i = absurd i
  IsIn-above lo x (y ∷ ys) h (inl e) = subst (λ z. lo < z.0) e h.0
  IsIn-above lo x (y ∷ ys) h (inr i) = IsIn-above lo x ys h.1 i

  -- Items with higher numbers than the first one are among the others.
  IsIn-rest :
      (y : ℕ × A) (xs ys : List (ℕ × A))
      → All (λ x. y.0 < x.0) xs
      → All (λ x. IsIn x (y ∷ ys)) xs
      → All (λ x. IsIn x ys) xs
  IsIn-rest y [] ys h i = tt
  IsIn-rest y (x ∷ xs) ys h (inl e, more) = absurd (omega (arith, h.0, ap (λ z. z.0) e))
  IsIn-rest y (x ∷ xs) ys h (inr i, more) = (i, IsIn-rest y xs ys h.1 more)

  -- Of two lists with rising numbers, the items of one are a subsequence of the other if they are
  -- among its items.
  pub Ascends-Subsequence :
      (lo lo' : ℕ) (xs ys : List (ℕ × A))
      → Ascends lo xs
      → Ascends lo' ys
      → All (λ x. IsIn x ys) xs
      → Subsequence xs ys
  Ascends-Subsequence lo lo' [] ys h k i = Subsequence-nil ys
  Ascends-Subsequence lo lo' (x ∷ xs) [] h k i = absurd i.0
  Ascends-Subsequence lo lo' (x ∷ xs) (y ∷ ys) h k (inl e, more) =
      let above : All (λ z. y.0 < z.0) xs =
        Ascends-above y.0 x.0 xs (omega (arith, ap (λ z. z.0) e)) h.1 in
      subst (λ z. Subsequence (z ∷ xs) (y ∷ ys)) e
        (keep y (Ascends-Subsequence x.0 y.0 xs ys h.1 k.1 (IsIn-rest y xs ys above more)))
  Ascends-Subsequence lo lo' (x ∷ xs) (y ∷ ys) h k (inr i, more) =
      let lt : y.0 < x.0 = IsIn-above y.0 x ys (Ascends-above y.0 y.0 ys (omega arith) k.1) i in
      let above : All (λ z. y.0 < z.0) xs = Ascends-above y.0 x.0 xs (omega arith) h.1 in
      skip y
        (Ascends-Subsequence y.0 y.0 (x ∷ xs) ys (lt, h.1) k.1 (i, IsIn-rest y xs ys above more))
