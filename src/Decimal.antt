-- ===== src/Decimal.antt =====
-- What version 1 uses of the package fmt: Sprintf and Sscanf with `%d` for an `int`, and the spaces and
-- newlines of Sscanf. The text is in bytes; a space is the UTF-8 encoding of one that fmt takes for it.
pub mod Print
pub mod Laws
use atxp.Common.{
  ℕ, zero, suc, ◌+◌, ◌-◌, ◌*◌, ◌/◌, ◌%◌, ◌^◌, Bool, true, false, Option, none, some, List, [], ◌∷◌,
  ◌++◌, ◌&&◌, ◌||◌, not, ltb, leb, ◌==◌, if◌then◌else◌,
}
use atxp.Common.Int.{ℤ, pos, negsuc}
use atxp.Wire.{Bytes}

-- The decimal digits of a number, most significant first. Fuel above the number is enough.
unfoldable pub digits : ℕ → ℕ → Bytes
digits zero n = []
digits (suc fuel) n =
    let front = digits fuel (n / 10) in (if ltb n 10 then [] else front) ++ (b'0' + n % 10) ∷ []

-- fmt.Sprintf("%d", n)
unfoldable pub print_int : ℤ → Bytes
print_int (pos n) = digits (suc n) n
print_int (negsuc n) = b'-' ∷ digits (suc (suc n)) (suc n)

-- The length of the space that a text begins with, 0 if it does not begin with one: isSpace of fmt.
abbrev pub space_size : Bytes → ℕ
space_size [] = 0
space_size (x ∷ []) = if leb 9 x && leb x 13 || x == 32 then 1 else 0
space_size (x ∷ y ∷ []) =
    if leb 9 x && leb x 13 || x == 32
    then 1
    else if x == 0xc2 && (y == 0x85 || y == 0xa0)
    then 2
    else 0
space_size (x ∷ y ∷ z ∷ s) =
    if leb 9 x && leb x 13 || x == 32
    then 1
    else if x == 0xc2 && (y == 0x85 || y == 0xa0)
    then 2
    else if x == 0xe1 && y == 0x9a && z == 0x80
        || x == 0xe2
          && y == 0x80
          && (leb 0x80 z && leb z 0x8a || z == 0xa8 || z == 0xa9 || z == 0xaf)
        || x == 0xe2 && y == 0x81 && z == 0x9f
        || x == 0xe3 && y == 0x80 && z == 0x80
    then 3
    else 0

-- The spaces before a verb, of which `n` bytes are still to be passed over. A newline is an error.
unfoldable pub skip_space : ℕ → Bytes → Option Bytes
skip_space n [] = some []
skip_space (suc n) (x ∷ s) = skip_space n s
skip_space zero (x ∷ s) =
    let later = skip_space (space_size (x ∷ s) - 1) s in
    if x == 10 then none else if space_size (x ∷ s) == 0 then some (x ∷ s) else later

-- A newline of the format: spaces, then a newline or the end of the text.
unfoldable pub skip_newline : ℕ → Bytes → Option Bytes
skip_newline n [] = some []
skip_newline (suc n) (x ∷ s) = skip_newline n s
skip_newline zero (x ∷ s) =
    let later = skip_newline (space_size (x ∷ s) - 1) s in
    if x == 10 then some s else if space_size (x ∷ s) == 0 then none else later

abbrev pub is_digit : ℕ → Bool
is_digit x = leb b'0' x && leb x b'9'

-- The digits at the front of a text, behind those that make up `n`; the number, and the rest.
unfoldable pub scan_digits : ℕ → Bytes → ℕ × Bytes
scan_digits n [] = (n, [])
scan_digits n (x ∷ s) =
    let more = scan_digits (n * 10 + (x - b'0')) s in if is_digit x then more else (n, x ∷ s)

-- strconv.ParseInt: the number in an int64, with its sign
abbrev pub in_int : Bool → ℕ → Option ℤ
in_int false n = if ltb n (2 ^ 63) then some (pos n) else none
in_int true zero = some (pos zero)
in_int true (suc n) = if ltb n (2 ^ 63) then some (negsuc n) else none

-- The digits behind the sign: one at least.
unfoldable pub scan_number : Bool → Bytes → Option (ℤ × Bytes)
scan_number negative [] = none
scan_number negative (x ∷ s) =
    let (n, rest) = scan_digits 0 (x ∷ s) in
    if is_digit x then elim (in_int negative n) [ none ↦ none | some i ↦ some (i, rest) ] else none

-- `%d`: spaces, a sign or none, digits
unfoldable pub scan_int : Bytes → Option (ℤ × Bytes)
scan_int s = elim (skip_space 0 s) [
  | none ↦ none
  | some [] ↦ none
  | some (x ∷ s') ↦
      if x == b'-'
      then scan_number true s'
      else if x == b'+'
      then scan_number false s'
      else scan_number false (x ∷ s')
]
