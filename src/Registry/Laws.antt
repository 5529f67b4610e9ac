-- ===== src/Registry/Laws.antt =====
-- mt_v2.go: what the registry promises, whatever order Go iterates over its map in.
use atxp.Common.{
  ◌≡◌, refl, sym, ap, subst, Bool, true, false, Option, none, some, [], ◌∷◌, ◌⊎◌, inl, inr, All,
  arith, eq_bytes, eq_bytes→eq, eq_bytes_refl, if◌then◌else◌, Bool-cases, Option-cases,
}
use atxp.Common.Int.{negsuc, eq_int}
use atxp.Common.Table.{
  lookup, insert, lookup-insert, In, IsUnique, In-lookup, lookup-In, insert-IsUnique,
}
use atxp.Wire.{Bytes}
use atxp.Message.{Mt}
use atxp.Registry.{MtV2, Registry, new_mt, lookup_mt, type_to_string_v2, string_to_type_v2}

-- `NewMT` refuses a code that is taken, and enters the type otherwise.
new_mt-cases :
    (mt : MtV2) (m : Registry)
    → ((old : MtV2) × (lookup_mt mt.code m ≡ some old) × (new_mt mt m ≡ (false, m)))
      ⊎ ((lookup_mt mt.code m ≡ none) × (new_mt mt m ≡ (true, insert mt.code mt m)))
unfolding new_mt lookup_mt
new_mt-cases mt m = elim (Option-cases (lookup mt.code m)) [
  | inl free ↦ inr (free, rw (free, new_mt) refl)
  | inr (old, taken) ↦ inl (old, taken, rw (taken, new_mt) refl)
]

insert-lookup_mt :
    (mt : MtV2) (code : Mt) (m : Registry)
    → lookup_mt code (insert mt.code mt m)
      ≡ (if eq_int mt.code code then some mt else lookup_mt code m)
unfolding lookup_mt
insert-lookup_mt mt code m = lookup-insert mt.code code mt m

-- What `LookupMT(code)` gives behind `NewMT(mt)`, when it gave `before`, and `NewMT`'s result.
abbrev pub registered : MtV2 → Mt → Option MtV2 → Option MtV2 → Bool × Option MtV2
registered mt code (some old) before = (false, before)
registered mt code none before = (true, if eq_int mt.code code then some mt else before)

-- `NewMT` returns false exactly if its code is taken, and then every lookup is as before; else it
-- returns true, its code is looked up as the new type, and every other lookup is as before.
pub new_mt-lookup_mt :
    (mt : MtV2) (code : Mt) (m : Registry)
    → ((new_mt mt m).0, lookup_mt code (new_mt mt m).1)
      ≡ registered mt code (lookup_mt mt.code m) (lookup_mt code m)
new_mt-lookup_mt mt code m = elim (new_mt-cases mt m) [
  | inl (old, taken, e) ↦ rw (e, taken) refl
  | inr (free, e) ↦ rw (e, free) (ap (λ o. (true, o)) (insert-lookup_mt mt code m))
]

-- Each entry of the map stands under its own code.
abbrev pub IsKeyed : Registry → Type 0
IsKeyed m = All (λ (e : Mt × MtV2). e.1.code ≡ e.0) m

-- `es` is an order in which an iteration over `m` may take the entries.
abbrev pub Iterates : Registry → Registry → Type 0
Iterates es m = ((e : Mt × MtV2) → In e es → In e m) × ((e : Mt × MtV2) → In e m → In e es)

insert-IsKeyed : (mt : MtV2) (m : Registry) → IsKeyed m → IsKeyed (insert mt.code mt m)
unfolding insert
insert-IsKeyed mt [] h = (refl, tt)
insert-IsKeyed mt ((j, w) ∷ m) (own, h) = elim (Bool-cases (eq_int j mt.code)) [
  | inl same ↦ rw (same, insert) (refl, h)
  | inr other ↦ rw (other, insert) (own, insert-IsKeyed mt m h)
]

-- Registering a type keeps at most one entry for a code, and every entry under its own code.
pub new_mt-IsUnique :
    (mt : MtV2) (m : Registry)
    → IsUnique m
    → IsKeyed m
    → IsUnique (new_mt mt m).1 × IsKeyed (new_mt mt m).1
new_mt-IsUnique mt m unique keyed = elim (new_mt-cases mt m) [
  | inl (old, taken, e) ↦ subst (λ r. IsUnique r.1 × IsKeyed r.1) (sym e) (unique, keyed)
  | inr (free, e) ↦
      subst (λ r. IsUnique r.1 × IsKeyed r.1) (sym e)
        (insert-IsUnique mt.code mt m unique, insert-IsKeyed mt m keyed)
]

-- The loop has found an entry with the name, or there is none and the result is -1.
abbrev pub Found : Bytes → Registry → Mt × Bool → Type 0
Found name es (code, true) = (mt : MtV2) × In (code, mt) es × (mt.name ≡ name)
Found name es (code, false) = (code ≡ negsuc 0) × ((e : Mt × MtV2) → In e es → ¬ (e.1.name ≡ name))

Found-later :
    (name : Bytes) (e : Mt × MtV2) (es : Registry) (r : Mt × Bool)
    → ¬ (e.1.name ≡ name)
    → Found name es r
    → Found name (e ∷ es) r
Found-later name e es (code, true) other (mt, i, same) = (mt, inr i, same)
Found-later name e es (code, false) other (m1, absent) =
    (m1, λ x i. elim i [ inl here ↦ λ same. other (cc) | inr there ↦ absent x there ])

Found-if :
    (name : Bytes) (es : Registry) (b : Bool) (x y : Mt × Bool)
    → (b ≡ true → Found name es x)
    → (b ≡ false → Found name es y)
    → Found name es (if b then x else y)
Found-if name es true x y on off = on refl
Found-if name es false x y on off = off refl

string_to_type_v2-Found : (name : Bytes) (es : Registry) → Found name es (string_to_type_v2 name es)
unfolding string_to_type_v2
string_to_type_v2-Found name [] = (refl, λ e i. absurd i)
string_to_type_v2-Found name ((code, mt) ∷ es) =
    Found-if name ((code, mt) ∷ es) (eq_bytes mt.name name) (code, true) (string_to_type_v2 name es)
      (λ same. (mt, inl refl, eq_bytes→eq mt.name name same))
      (λ other.
        Found-later name (code, mt) es (string_to_type_v2 name es)
          (λ same. ground (arith, eq_bytes_refl name)) (string_to_type_v2-Found name es))

resolved :
    (es : Registry) (code : Mt) (mt : MtV2) (r : Mt × Bool)
    → Found mt.name es r
    → In (code, mt) es
    → ((e : Mt × MtV2) → In e es → e.1.name ≡ mt.name → e.0 ≡ code)
    → r ≡ (code, true)
resolved es code mt (c, true) (w, i, same) here single = ap (λ x. (x, true)) (single (c, w) i same)
resolved es code mt (c, false) (m1, absent) here single = absurd (absent (code, mt) here refl)

-- The name of a registered type leads back to its code, whatever the order of the iteration, if no
-- other code has a type of that name.
pub string_to_type_v2-type_to_string_v2 :
    (m es : Registry) (code : Mt) (mt : MtV2)
    → Iterates es m
    → lookup_mt code m ≡ some mt
    → ((e : Mt × MtV2) → In e m → e.1.name ≡ mt.name → e.0 ≡ code)
    → string_to_type_v2 (type_to_string_v2 code m) es ≡ (code, true)
unfolding type_to_string_v2 lookup_mt
string_to_type_v2-type_to_string_v2 m es code mt order known single =
    rw (known, type_to_string_v2)
      (resolved es code mt (string_to_type_v2 mt.name es) (string_to_type_v2-Found mt.name es)
        (order.1 _ (In-lookup code mt m known)) (λ e i. single e (order.0 e i)))

-- A code that `StringToTypeV2` returns for a name, whatever the order of the iteration, is one that
-- `TypeToStringV2` gives that name for.
pub type_to_string_v2-string_to_type_v2 :
    (m es : Registry) (name : Bytes) (code : Mt)
    → Iterates es m
    → IsUnique m
    → string_to_type_v2 name es ≡ (code, true)
    → type_to_string_v2 code m ≡ name
unfolding type_to_string_v2 lookup_mt
type_to_string_v2-string_to_type_v2 m es name code order unique h =
    let (mt, i, same) =
      subst (Found name es) {x = string_to_type_v2 name es} {y = (code, true)} h
        (string_to_type_v2-Found name es) in
    rw (lookup-In code mt m unique (order.0 _ i), type_to_string_v2) same

-- When `StringToTypeV2` returns false, its code is -1 and no code is registered under the name.
pub string_to_type_v2_absent :
    (m es : Registry) (name : Bytes) (code k : Mt) (mt : MtV2)
    → Iterates es m
    → string_to_type_v2 name es ≡ (code, false)
    → lookup_mt k m ≡ some mt
    → (code ≡ negsuc 0) × ¬ (mt.name ≡ name)
unfolding lookup_mt
string_to_type_v2_absent m es name code k mt order h known =
    let (m1, absent) =
      subst (Found name es) {x = string_to_type_v2 name es} {y = (code, false)} h
        (string_to_type_v2-Found name es) in
    (m1, absent (k, mt) (order.1 _ (In-lookup k mt m known)))
