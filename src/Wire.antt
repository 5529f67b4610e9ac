-- ===== src/Wire.antt =====
-- v2.go, the byte level of the envelope: encoding/binary's big-endian words, `appendField`, and the
-- cursor `envelopeReader`. A byte slice is a list of numbers below 256. Go's `int` has 64 bits.
pub mod Reader
pub mod Words
pub mod Fields
use atxp.Common.{
  ℕ, ◌+◌, ◌*◌, ◌/◌, ◌%◌, ◌^◌, ◌<◌, Bool, Option, none, some, List, [], ◌∷◌, ◌++◌, length, take,
  drop, ltb, ◌==◌, if◌then◌else◌,
}
use atxp.Common.Parser.{Parser, pure, ◌>>=◌}

abbrev pub Bytes : Type 0
Bytes = List ℕ

abbrev pub IsByte : ℕ → Type 0
IsByte b = b < 256

-- binary.BigEndian.AppendUint32 and AppendUint64; `byte(x)` is `x % 256`.
unfoldable pub append_uint32 : Bytes → ℕ → Bytes
append_uint32 buf v =
    buf ++ (v / 2 ^ 24 % 256) ∷ (v / 2 ^ 16 % 256) ∷ (v / 2 ^ 8 % 256) ∷ (v % 256) ∷ []

unfoldable pub append_uint64 : Bytes → ℕ → Bytes
append_uint64 buf v =
    buf
    ++ (v / 2 ^ 56 % 256)
      ∷ (v / 2 ^ 48 % 256)
      ∷ (v / 2 ^ 40 % 256)
      ∷ (v / 2 ^ 32 % 256)
      ∷ (v / 2 ^ 24 % 256)
      ∷ (v / 2 ^ 16 % 256)
      ∷ (v / 2 ^ 8 % 256)
      ∷ (v % 256)
      ∷ []

-- binary.BigEndian.Uint32 and Uint64 of a slice that is long enough, which the callers check.
unfoldable pub uint32 : Bytes → ℕ
uint32 (a ∷ b ∷ c ∷ d ∷ rest) = a * 2 ^ 24 + b * 2 ^ 16 + c * 2 ^ 8 + d
uint32 _ = 0

unfoldable pub uint64 : Bytes → ℕ
unfolding uint32
uint64 b = uint32 b * 2 ^ 32 + uint32 (drop 4 b)

-- appendField: the length as a uint32, then the bytes.
unfoldable pub append_field : Bytes → Bytes → Bytes
unfolding append_uint32
append_field buf field = append_uint32 buf (length field % 2 ^ 32) ++ field

pub record EnvelopeReader : Type 0 where
  pub b : Bytes
  pub off : ℕ

-- r.off += n
abbrev pub advance : EnvelopeReader → ℕ → EnvelopeReader
advance r n = record r { off = r.off + n }

-- b[0] of a slice that is not empty
abbrev pub first : Bytes → ℕ
first [] = 0
first (x ∷ xs) = x

unfoldable pub read_byte : Parser EnvelopeReader ℕ
read_byte r =
    if ltb (length r.b) (r.off + 1) then none else some (first (drop r.off r.b), advance r 1)

unfoldable pub read_uint32 : Parser EnvelopeReader ℕ
unfolding uint32
read_uint32 r =
    if ltb (length r.b) (r.off + 4) then none else some (uint32 (drop r.off r.b), advance r 4)

unfoldable pub read_uint64 : Parser EnvelopeReader ℕ
unfolding uint64
read_uint64 r =
    if ltb (length r.b) (r.off + 8) then none else some (uint64 (drop r.off r.b), advance r 8)

-- The part of `readField` behind the length `n`.
unfoldable pub read_bytes : ℕ → Parser EnvelopeReader Bytes
read_bytes n r =
    if ltb (length r.b) (r.off + n) then none else some (take n (drop r.off r.b), advance r n)

unfoldable pub read_field : Parser EnvelopeReader Bytes
read_field = do n ← read_uint32; read_bytes n

unfoldable pub done : Parser EnvelopeReader Bool
done r = some (r.off == length r.b, r)
