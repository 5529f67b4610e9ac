-- ===== src/Wire/Words.antt =====
-- Big-endian words: what the encoders write is what the abstract reader takes, and nothing else is.
use atxp.Common.{
  ℕ, ◌%◌, ◌^◌, ◌≡◌, refl, some, [], ◌∷◌, ◌++◌, length, All, arith, length-append, take-append,
  drop-append,
}
use atxp.Wire.{Bytes, IsByte, append_uint32, append_uint64, uint32, uint64}
use atxp.Wire.Reader.{take_bytes, take_byte, take_uint32, take_uint64}

pub append_uint32_nil : (buf : Bytes) (v : ℕ) → append_uint32 buf v ≡ buf ++ append_uint32 [] v
unfolding append_uint32
append_uint32_nil buf v = refl

pub append_uint64_nil : (buf : Bytes) (v : ℕ) → append_uint64 buf v ≡ buf ++ append_uint64 [] v
unfolding append_uint64
append_uint64_nil buf v = refl

pub length-append_uint32 : (v : ℕ) → length (append_uint32 [] v) ≡ 4
unfolding append_uint32
length-append_uint32 v = refl

pub length-append_uint64 : (v : ℕ) → length (append_uint64 [] v) ≡ 8
unfolding append_uint64
length-append_uint64 v = refl

pub append_uint32-IsByte : (v : ℕ) → All IsByte (append_uint32 [] v)
unfolding append_uint32
append_uint32-IsByte v = omega arith

pub append_uint64-IsByte : (v : ℕ) → All IsByte (append_uint64 [] v)
unfolding append_uint64
append_uint64-IsByte v = omega arith

-- The word that is read back is the number, reduced to the width.
pub uint32-append_uint32 : (v : ℕ) (rest : Bytes) → uint32 (append_uint32 [] v ++ rest) ≡ v % 2 ^ 32
unfolding uint32 append_uint32
uint32-append_uint32 v rest = omega arith

pub uint64-append_uint64 : (v : ℕ) (rest : Bytes) → uint64 (append_uint64 [] v ++ rest) ≡ v % 2 ^ 64
unfolding uint64 append_uint64
uint64-append_uint64 v rest = omega arith

pub take_bytes-append : (bs rest : Bytes) → take_bytes (length bs) (bs ++ rest) ≡ some (bs, rest)
unfolding take_bytes
take_bytes-append bs rest =
    ground (arith, length-append bs rest, take-append bs rest, drop-append bs rest)

pub take_byte-cons : (x : ℕ) (rest : Bytes) → take_byte (x ∷ rest) ≡ some (x, rest)
unfolding take_byte
take_byte-cons x rest = ground arith

pub take_uint32-append_uint32 :
    (v : ℕ) (rest : Bytes) → take_uint32 (append_uint32 [] v ++ rest) ≡ some (v % 2 ^ 32, rest)
unfolding take_uint32 append_uint32 uint32
take_uint32-append_uint32 v rest = ground arith

pub take_uint64-append_uint64 :
    (v : ℕ) (rest : Bytes) → take_uint64 (append_uint64 [] v ++ rest) ≡ some (v % 2 ^ 64, rest)
unfolding take_uint64 append_uint64 uint64
take_uint64-append_uint64 v rest = ground arith
