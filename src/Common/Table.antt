-- ===== src/Common/Table.antt =====
-- A Go map with `int` keys, as an association list with one entry for a key.
use mathlib.Core.Path.{◌≡◌, refl}
use mathlib.Core.Option.{Option, none, some}
use mathlib.Core.List.{List, [], ◌∷◌}
use native.Mathlib.Omega.{arith}
use mathlib.Core.Logic.{◌⊎◌, inl, inr}
use atxp.Common.Tests.{if◌then◌else◌, Bool-cases}
use atxp.Common.Int.{ℤ, eq_int, eq_int_iff}

module _ {ℓ} {V : Type ℓ} where
  -- v, ok := m[k]
  unfoldable pub lookup : ℤ → List (ℤ × V) → Option V
  lookup k [] = none
  lookup k ((j, v) ∷ m) = if eq_int j k then some v else lookup k m

  -- m[k] = v
  unfoldable pub insert : ℤ → V → List (ℤ × V) → List (ℤ × V)
  insert k v [] = (k, v) ∷ []
  insert k v ((j, w) ∷ m) = if eq_int j k then (k, v) ∷ m else (j, w) ∷ insert k v m

module _ {ℓ} {V : Type ℓ} where
  pub lookup-insert :
      (k j : ℤ) (v : V) (m : List (ℤ × V))
      → lookup j (insert k v m) ≡ (if eq_int k j then some v else lookup j m)
  unfolding lookup insert
  lookup-insert k j v [] = refl
  lookup-insert k j v ((i, w) ∷ m) =
      ground (arith, eq_int_iff k j, eq_int_iff i k, eq_int_iff i j, lookup-insert k j v m)

module _ {V : Type 0} where
  -- The map has the entry.
  abbrev pub In : ℤ × V → List (ℤ × V) → Type 0
  In e [] = ⊥
  In e (x ∷ m) = (x ≡ e) ⊎ In e m

  -- No two entries have the same key.
  abbrev pub IsUnique : List (ℤ × V) → Type 0
  IsUnique [] = Unit
  IsUnique ((k, v) ∷ m) = (lookup k m ≡ none) × IsUnique m

module _ {V : Type 0} where
  pub In-lookup : (k : ℤ) (v : V) (m : List (ℤ × V)) → lookup k m ≡ some v → In (k, v) m
  unfolding lookup
  In-lookup k v [] h = cc
  In-lookup k v ((j, w) ∷ m) h = elim (Bool-cases (eq_int j k)) [
    | inl same ↦ inl (ground (arith, same, eq_int_iff j k))
    | inr other ↦ inr (In-lookup k v m (rw (other, lookup) at h))
  ]

  pub lookup-In :
      (k : ℤ) (v : V) (m : List (ℤ × V)) → IsUnique m → In (k, v) m → lookup k m ≡ some v
  unfolding lookup
  lookup-In k v [] u i = absurd i
  lookup-In k v ((j, w) ∷ m) u (inl e) = ground (arith, eq_int_iff j k)
  lookup-In k v ((j, w) ∷ m) u (inr i) = ground (arith, eq_int_iff j k, lookup-In k v m u.1 i)

  pub insert-IsUnique : (k : ℤ) (v : V) (m : List (ℤ × V)) → IsUnique m → IsUnique (insert k v m)
  unfolding insert
  insert-IsUnique k v [] u = (unfold lookup in refl, tt)
  insert-IsUnique k v ((j, w) ∷ m) u = elim (Bool-cases (eq_int j k)) [
    | inl same ↦ rw same (ground (arith, same, eq_int_iff j k, u.0), u.1)
    | inr other ↦ rw other (
      ground (arith, lookup-insert k j v m, eq_int_iff k j, eq_int_iff j k, u.0),
      insert-IsUnique k v m u.1,
    )
  ]
