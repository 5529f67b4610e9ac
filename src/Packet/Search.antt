-- ===== src/Packet/Search.antt =====
-- What strings.Index and strings.Split find in text without the bytes that they look for.
use atxp.Common.{
  sym, ◌⊎◌, inl, inr, Bool-cases, ℕ, suc, ◌+◌, ◌≡◌, ◌≢◌, refl, ap, ◌∙◌, true, false, Option, none,
  some, [], ◌∷◌, ◌++◌, length, take, drop, All, arith, append_assoc, append-nil, take-append,
  drop-append, if◌then◌else◌, ◌==◌, ==_iff,
}
use mathlib.Core.Option
use atxp.Wire.{Bytes}
use atxp.Packet.{auth_mark, newlines, has_prefix, index, split_colons}

-- At a byte where the text does not begin with `sub`, the search goes on.
pub index-cons :
    (x : ℕ) (s sub : Bytes)
    → has_prefix (x ∷ s) sub ≡ false
    → index (x ∷ s) sub ≡ Option.map suc (index s sub)
unfolding index
index-cons x s sub h = rw h refl

-- Where the text begins with `sub`, the search ends.
pub index-has_prefix : (s sub : Bytes) → has_prefix s sub ≡ true → index s sub ≡ some 0
unfolding index
index-has_prefix [] sub h = rw h refl
index-has_prefix (x ∷ s) sub h = rw h refl

map-suc-map :
    (n : ℕ) (o : Option ℕ)
    → Option.map suc (Option.map (λ i. n + i) o) ≡ Option.map (λ i. suc n + i) o
map-suc-map n none = refl
map-suc-map n (some i) = ap some (omega arith)

map_zero : (o : Option ℕ) → o ≡ Option.map (λ i. 0 + i) o
map_zero none = refl
map_zero (some i) = ap some (omega arith)

-- Bytes other than the first of `sub` are passed over.
pub index-append :
    (xs s : Bytes) (p : ℕ) (ps : Bytes)
    → All (λ x. x ≢ p) xs
    → index (xs ++ s) (p ∷ ps) ≡ Option.map (λ i. length xs + i) (index s (p ∷ ps))
index-append [] s p ps h = map_zero (index s (p ∷ ps))
index-append (x ∷ xs) s p ps (other, h) =
    index-cons x (xs ++ s) (p ∷ ps) (ground (arith, ==_iff x p))
    ∙ ap (Option.map suc) (index-append xs s p ps h)
    ∙ map-suc-map (length xs) (index s (p ∷ ps))

-- A text without `sub` does not begin with it, and neither does what is behind its first byte have it.
pub index-cons_none :
    (x : ℕ) (s sub : Bytes)
    → index (x ∷ s) sub ≡ none
    → (has_prefix (x ∷ s) sub ≡ false) × (index s sub ≡ none)
unfolding index
index-cons_none x s sub h = ground arith

newlines-cross :
    (x y : ℕ) (d s : Bytes)
    → y ≢ 10
    → has_prefix (x ∷ d) newlines ≡ false
    → has_prefix (x ∷ (d ++ y ∷ s)) newlines ≡ false
newlines-cross x y [] s other h = ground (arith, ==_iff y 10)
newlines-cross x y (z ∷ d) s other h = ground arith

-- Text without two newlines side by side is passed over, if none follows it.
pub index-newlines_append :
    (d s : Bytes) (y : ℕ)
    → y ≢ 10
    → index d newlines ≡ none
    → index (d ++ y ∷ s) newlines ≡ Option.map (λ i. length d + i) (index (y ∷ s) newlines)
index-newlines_append [] s y other h = map_zero (index (y ∷ s) newlines)
index-newlines_append (x ∷ d) s y other h =
    let (front, back) = index-cons_none x d newlines h in
    index-cons x (d ++ y ∷ s) newlines (newlines-cross x y d s other front)
    ∙ ap (Option.map suc) (index-newlines_append d s y other back)
    ∙ map-suc-map (length d) (index (y ∷ s) newlines)

-- The mark begins nowhere in a text and the mark behind it but where it stands.
auth_mark-cross :
    (x : ℕ) (d r : Bytes)
    → has_prefix (x ∷ d) auth_mark ≡ false
    → has_prefix (x ∷ (d ++ (auth_mark ++ r))) auth_mark ≡ false
auth_mark-cross x [] r h = ground arith
auth_mark-cross x (a ∷ []) r h = ground arith
auth_mark-cross x (a ∷ b ∷ []) r h = ground arith
auth_mark-cross x (a ∷ b ∷ c ∷ []) r h = ground arith
auth_mark-cross x (a ∷ b ∷ c ∷ d ∷ []) r h = ground arith
auth_mark-cross x (a ∷ b ∷ c ∷ d ∷ e ∷ []) r h = ground arith
auth_mark-cross x (a ∷ b ∷ c ∷ d ∷ e ∷ f ∷ s) r h = h

pub index-auth_mark_append :
    (d r : Bytes)
    → index d auth_mark ≡ none
    → index (d ++ (auth_mark ++ r)) auth_mark ≡ some (length d)
index-auth_mark_append [] r h = index-has_prefix (auth_mark ++ r) auth_mark refl
index-auth_mark_append (x ∷ d) r h =
    let (front, back) = index-cons_none x d auth_mark h in
    index-cons x (d ++ (auth_mark ++ r)) auth_mark (auth_mark-cross x d r front)
    ∙ ap (Option.map suc) (index-auth_mark_append d r back)

-- The part of a text between two lengths.
pub take-drop-append :
    (xs ys zs : Bytes) → take (length ys) (drop (length xs) (xs ++ (ys ++ zs))) ≡ ys
take-drop-append xs ys zs = rw (drop-append, take-append) refl

split_colons-cons :
    (part s : Bytes) (x : ℕ)
    → (x == b':') ≡ false
    → split_colons part false (x ∷ s) ≡ split_colons (part ++ x ∷ []) false s
unfolding split_colons
split_colons-cons part s x h = ap (λ b. split_colons (if b then part else part ++ x ∷ []) b s) h

split_colons-colon :
    (part s : Bytes) (y : ℕ)
    → (y == b':') ≡ false
    → split_colons part false (b':' ∷ y ∷ s) ≡ split_colons (part ++ b':' ∷ y ∷ []) false s
unfolding split_colons
split_colons-colon part s y h =
    ap
      (λ b.
        let rest = split_colons (if b then [] else part ++ b':' ∷ y ∷ []) false s in
        if b then part ∷ rest else rest)
      h

-- Text that a separator does not split, and does not split when a colon follows it.
abbrev pub IsPart : Bytes → Type 0
IsPart p = index (p ++ b':' ∷ []) (b':' ∷ b':' ∷ []) ≡ none

-- A text in front of which `part` has been read, when its first byte is read, or its first two.
IsPart-cases :
    (x y : ℕ) (p : Bytes)
    → IsPart (x ∷ y ∷ p)
    → IsPart (y ∷ p) × (((x == b':') ≡ false) ⊎ ((x ≡ b':') × ((y == b':') ≡ false) × IsPart p))
IsPart-cases x y p h =
    let colons : Bytes = b':' ∷ b':' ∷ [] in
    let (front, back) = index-cons_none x (y ∷ (p ++ b':' ∷ [])) colons h in
    let (front', back') = index-cons_none y (p ++ b':' ∷ []) colons back in
    (
      back,
      elim (Bool-cases (x == b':')) [
        | inl same ↦ inr (ground (arith, same, ==_iff x b':'), ground (arith, same, front), back')
        | inr other ↦ inl other
      ],
    )

IsPart-one : (x : ℕ) → IsPart (x ∷ []) → (x == b':') ≡ false
IsPart-one x h =
    let (front, back) = index-cons_none x (b':' ∷ []) (b':' ∷ b':' ∷ []) h in ground (arith, front)

-- A part up to the end.
pub split_colons-end : (part p : Bytes) → IsPart p → split_colons part false p ≡ (part ++ p) ∷ []
unfolding split_colons
split_colons-end part [] h = rw append-nil refl
split_colons-end part (x ∷ []) h = split_colons-cons part [] x (IsPart-one x h)
split_colons-end part (x ∷ y ∷ p) h =
    let (back, how) = IsPart-cases x y p h in
    elim how [
      | inl other ↦
          split_colons-cons part (y ∷ p) x other
          ∙ split_colons-end (part ++ x ∷ []) (y ∷ p) back
          ∙ ap (λ t. t ∷ []) (append_assoc part (x ∷ []) (y ∷ p))
      | inr (same, other, back') ↦
          ap (λ z. split_colons part false (z ∷ y ∷ p)) same
          ∙ split_colons-colon part p y other
          ∙ split_colons-end (part ++ b':' ∷ y ∷ []) p back'
          ∙ ap (λ t. t ∷ []) (append_assoc part (b':' ∷ y ∷ []) p)
          ∙ ap (λ z. (part ++ z ∷ y ∷ p) ∷ []) (sym same)
    ]

-- A part up to a separator.
pub split_colons-append :
    (part p rest : Bytes)
    → IsPart p
    → split_colons part false (p ++ b':' ∷ b':' ∷ rest) ≡ (part ++ p) ∷ split_colons [] false rest
unfolding split_colons
split_colons-append part [] rest h = rw append-nil refl
split_colons-append part (x ∷ []) rest h =
    split_colons-cons part (b':' ∷ b':' ∷ rest) x (IsPart-one x h)
split_colons-append part (x ∷ y ∷ p) rest h =
    let (back, how) = IsPart-cases x y p h in
    let tail = p ++ b':' ∷ b':' ∷ rest in
    elim how [
      | inl other ↦
          split_colons-cons part (y ∷ tail) x other
          ∙ split_colons-append (part ++ x ∷ []) (y ∷ p) rest back
          ∙ ap (λ t. t ∷ split_colons [] false rest) (append_assoc part (x ∷ []) (y ∷ p))
      | inr (same, other, back') ↦
          ap (λ z. split_colons part false (z ∷ y ∷ tail)) same
          ∙ split_colons-colon part tail y other
          ∙ split_colons-append (part ++ b':' ∷ y ∷ []) p rest back'
          ∙ ap (λ t. t ∷ split_colons [] false rest) (append_assoc part (b':' ∷ y ∷ []) p)
          ∙ ap (λ z. (part ++ z ∷ y ∷ p) ∷ split_colons [] false rest) (sym same)
    ]
