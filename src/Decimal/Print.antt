-- ===== src/Decimal/Print.antt =====
-- The digits of a number: what they consist of, and what they are read back as.
use atxp.Common.{
  ℕ, zero, suc, ◌+◌, ◌-◌, ◌*◌, ◌/◌, ◌%◌, ◌<◌, ◌≤◌, ◌≡◌, refl, ap, ◌∙◌, [], ◌∷◌, ◌++◌, All,
  All-append, append_assoc, arith, ltb, lt→ltb, le→ltb, inl, inr, Bool-cases, ltb→lt, ltb→le,
}
use atxp.Wire.{Bytes}
use atxp.Decimal.{digits, scan_digits}

-- A character between '0' and '9'.
abbrev pub IsDigit : ℕ → Type 0
IsDigit x = (b'0' ≤ x) × (x ≤ b'9')

digits-small : (fuel n : ℕ) → n < 10 → digits (suc fuel) n ≡ (b'0' + n % 10) ∷ []
unfolding digits
digits-small fuel n h = rw (lt→ltb n 10 h, digits) refl

digits-large :
    (fuel n : ℕ) → 10 ≤ n → digits (suc fuel) n ≡ digits fuel (n / 10) ++ (b'0' + n % 10) ∷ []
unfolding digits
digits-large fuel n h = rw (le→ltb n 10 h, digits) refl

last_IsDigit : (n : ℕ) → IsDigit (b'0' + n % 10)
last_IsDigit n = omega arith

-- There is a first digit, and all are digits.
pub digits-IsDigit :
    (fuel n : ℕ) → n < fuel → (x : ℕ) × (s : Bytes) × (digits fuel n ≡ x ∷ s) × All IsDigit (x ∷ s)
digits-IsDigit zero n h = absurd (omega arith)
digits-IsDigit (suc fuel) n h = elim (Bool-cases (ltb n 10)) [
  | inl small ↦ (b'0' + n % 10, [], digits-small fuel n (ltb→lt n 10 small), (last_IsDigit n, tt))
  | inr large ↦
      let (x, s, e, all) = digits-IsDigit fuel (n / 10) (omega (arith, ltb→le n 10 large)) in
      (
        x,
        s ++ (b'0' + n % 10) ∷ [],
        digits-large fuel n (ltb→le n 10 large) ∙ ap (λ t. t ++ (b'0' + n % 10) ∷ []) e,
        All-append IsDigit (x ∷ s) ((b'0' + n % 10) ∷ []) all (last_IsDigit n, tt),
      )
]

-- A digit is read behind those before it.
scan_digits-cons :
    (m x : ℕ) (s : Bytes) → IsDigit x → scan_digits m (x ∷ s) ≡ scan_digits (m * 10 + (x - b'0')) s
unfolding scan_digits
scan_digits-cons m x s h = ground arith

-- The digits of `n` are read as `n`.
pub scan_digits-digits :
    (fuel n : ℕ) (t : Bytes) → n < fuel → scan_digits 0 (digits fuel n ++ t) ≡ scan_digits n t
scan_digits-digits zero n t h = absurd (omega arith)
scan_digits-digits (suc fuel) n t h = elim (Bool-cases (ltb n 10)) [
  | inl small ↦
      ap (λ s. scan_digits 0 (s ++ t)) (digits-small fuel n (ltb→lt n 10 small))
      ∙ scan_digits-cons 0 (b'0' + n % 10) t (last_IsDigit n)
      ∙ ap (λ k. scan_digits k t) (omega (arith, ltb→lt n 10 small))
  | inr large ↦
      ap (λ s. scan_digits 0 (s ++ t)) (digits-large fuel n (ltb→le n 10 large))
      ∙ ap (scan_digits 0) (append_assoc (digits fuel (n / 10)) ((b'0' + n % 10) ∷ []) t)
      ∙ scan_digits-digits fuel (n / 10) ((b'0' + n % 10) ∷ t) (omega (arith, ltb→le n 10 large))
      ∙ scan_digits-cons (n / 10) (b'0' + n % 10) t (last_IsDigit n)
      ∙ ap (λ k. scan_digits k t) (omega arith)
]
