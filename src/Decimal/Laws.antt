-- ===== src/Decimal/Laws.antt =====
-- Sscanf reads back what Sprintf prints.
use atxp.Common.{
  ℕ, suc, ◌^◌, ◌<◌, ◌≤◌, ◌≡◌, refl, ap, sym, ◌∙◌, Bool, true, false, some, [], ◌∷◌, ◌++◌, arith,
  lt→ltb, ◌==◌,
}
use atxp.Common.Int.{ℤ, pos, negsuc}
use atxp.Wire.{Bytes}
use atxp.Decimal.{
  digits, print_int, space_size, skip_space, is_digit, scan_digits, in_int, scan_number, scan_int,
}
use atxp.Decimal.Print.{IsDigit, digits-IsDigit, scan_digits-digits}

-- An `int`, of 64 bits.
abbrev pub IsInt : ℤ → Type 0
IsInt (pos n) = n < 2 ^ 63
IsInt (negsuc n) = n < 2 ^ 63

-- The text does not begin with a digit.
abbrev pub NoDigit : Bytes → Type 0
NoDigit [] = Unit
NoDigit (x ∷ s) = is_digit x ≡ false

scan_digits-NoDigit : (n : ℕ) (t : Bytes) → NoDigit t → scan_digits n t ≡ (n, t)
unfolding scan_digits
scan_digits-NoDigit n [] h = refl
scan_digits-NoDigit n (x ∷ s) h = rw (h, scan_digits) refl

scan_number-read :
    (negative : Bool) (n : ℕ) (t : Bytes) (i : ℤ) (x : ℕ) (s : Bytes)
    → IsDigit x
    → scan_digits 0 (x ∷ s) ≡ (n, t)
    → in_int negative n ≡ some i
    → scan_number negative (x ∷ s) ≡ some (i, t)
unfolding scan_number
scan_number-read negative n t i x s digit read e =
    let first : is_digit x ≡ true = ground arith in
    rw (first, read, e) (ap (λ (q : ℕ × Bytes). some (i, q.1)) read)

scan_number-digits :
    (negative : Bool) (n : ℕ) (t : Bytes) (i : ℤ)
    → NoDigit t
    → in_int negative n ≡ some i
    → scan_number negative (digits (suc n) n ++ t) ≡ some (i, t)
scan_number-digits negative n t i h e =
    let (x, s, d, (digit, all)) = digits-IsDigit (suc n) n (omega arith) in
    let read : scan_digits 0 (x ∷ (s ++ t)) ≡ (n, t) =
      ap (λ u. scan_digits 0 (u ++ t)) (sym d)
      ∙ scan_digits-digits (suc n) n t (omega arith)
      ∙ scan_digits-NoDigit n t h in
    ap (λ u. scan_number negative (u ++ t)) d
    ∙ scan_number-read negative n t i x (s ++ t) digit read e

-- Printable ASCII is no space.
space_size-zero : (x : ℕ) (s : Bytes) → 33 ≤ x → x ≤ 127 → space_size (x ∷ s) ≡ 0
space_size-zero x [] lo hi = ground arith
space_size-zero x (y ∷ []) lo hi = ground arith
space_size-zero x (y ∷ z ∷ s) lo hi = ground arith

skip_space-plain : (x : ℕ) (s : Bytes) → 33 ≤ x → x ≤ 127 → skip_space 0 (x ∷ s) ≡ some (x ∷ s)
unfolding skip_space
skip_space-plain x s lo hi =
    let size : (space_size (x ∷ s) == 0) ≡ true = rw (space_size-zero x s lo hi) refl in
    let other : (x == 10) ≡ false = ground arith in rw (other, size, skip_space) refl

scan_int-digit : (x : ℕ) (s : Bytes) → IsDigit x → scan_int (x ∷ s) ≡ scan_number false (x ∷ s)
unfolding scan_int
scan_int-digit x s h =
    let minus : (x == b'-') ≡ false = ground arith in
    let plus : (x == b'+') ≡ false = ground arith in
    rw (skip_space-plain x s (omega arith) (omega arith), scan_int) (rw (minus, plus) refl)

scan_int-minus : (s : Bytes) → scan_int (b'-' ∷ s) ≡ scan_number true s
unfolding scan_int
scan_int-minus s = rw (skip_space-plain b'-' s (omega arith) (omega arith), scan_int) refl

-- Sscanf with `%d` on what Sprintf has printed of an `int` with `%d`, and anything behind it that does
-- not begin with a digit: the `int`, and what is behind it.
pub scan_int-print_int :
    (i : ℤ) (t : Bytes) → IsInt i → NoDigit t → scan_int (print_int i ++ t) ≡ some (i, t)
unfolding print_int
scan_int-print_int (pos n) t h k =
    let (x, s, d, (digit, all)) = digits-IsDigit (suc n) n (omega arith) in
    ap (λ u. scan_int (u ++ t)) d
    ∙ scan_int-digit x (s ++ t) digit
    ∙ ap (λ u. scan_number false (u ++ t)) (sym d)
    ∙ scan_number-digits false n t (pos n) k (rw (lt→ltb n (2 ^ 63) h) refl)
scan_int-print_int (negsuc n) t h k =
    scan_int-minus (digits (suc (suc n)) (suc n) ++ t)
    ∙ scan_number-digits true (suc n) t (negsuc n) k (rw (lt→ltb n (2 ^ 63) h) refl)
