-- ===== src/Endpoint.antt =====
-- v2.go: the endpoint `V2`, its options, and the two sides of the handshake.
pub mod Options
pub mod Handshake
pub mod Deadlines
pub mod Output
use Prim.Native.String.{String}
use atxp.Common.{
  ℕ, suc, ◌+◌, List, [], ◌∷◌, ◌++◌, not, length, take, drop, ◌==◌, eq_bytes, if◌then◌else◌,
}
use atxp.Common.Int.{ℤ, pos, le_int}
use atxp.Errors.{
  Error, Result, ok, err, sentinel, wrap, wrap_both, err_handshake, err_weak_password,
}
use atxp.Errors
use atxp.Wire.{Bytes, first}
use atxp.Conn.{
  Io, arm_read, arm_write, write_bytes, read_full, rand_read, on_entropy, throw, lift, wrap_err,
  map_err, ◌>>=◌, ◌>>◌,
}
use atxp.Crypto.{Crypto, Cipher, salt_size, default_kdf_iterations, derive_key, new_gcm_cipher}
use atxp.Frame.{max_frame_size_v2, min_frame_size_v2, default_io_timeout}

abbrev pub protocol_version_v2 : ℕ
protocol_version_v2 = 2

-- "ATXP2"
abbrev pub handshake_magic : Bytes
handshake_magic = b'A' ∷ b'T' ∷ b'X' ∷ b'P' ∷ b'2' ∷ []

abbrev pub handshake_header_size : ℕ
handshake_header_size = length handshake_magic + 1 + salt_size

pub record V2 : Type 0 where
  pub password : Bytes
  pub iterations : ℤ
  pub timeout : ℤ
  pub max_frame_size : ℤ

-- What an option makes of the endpoint that it is given.
abbrev pub OptionV2 : Type 0
OptionV2 = V2 → V2

unfoldable pub with_iterations : ℤ → OptionV2
with_iterations n v = if not (le_int n (pos 0)) then record v { iterations = n } else v

unfoldable pub with_handshake_timeout : ℤ → OptionV2
with_handshake_timeout d v = if not (le_int d (pos 0)) then record v { timeout = d } else v

unfoldable pub with_max_frame_size : ℤ → OptionV2
with_max_frame_size n v =
    if le_int (pos min_frame_size_v2) n then record v { max_frame_size = n } else v

unfoldable pub apply_options : V2 → List OptionV2 → V2
apply_options v [] = v
apply_options v (opt ∷ opts) = apply_options (opt v) opts

-- The endpoint that `NewV2` gives to the options.
abbrev pub default_v2 : Bytes → V2
default_v2 password = record {
  password = password;
  iterations = default_kdf_iterations;
  timeout = default_io_timeout;
  max_frame_size = max_frame_size_v2;
}

unfoldable pub new_v2 : Bytes → List OptionV2 → Result V2
new_v2 password opts =
    if length password == 0
    then err (sentinel err_weak_password)
    else ok (apply_options (default_v2 password) opts)

-- magic || version || salt
unfoldable pub handshake_header : Bytes → Bytes
handshake_header salt = handshake_magic ++ protocol_version_v2 ∷ salt

-- fmt.Errorf("s: %w: %w", ErrHandshake, err)
abbrev pub failed : String → Error → Error
failed s e = wrap_both s (sentinel err_handshake) e

module _ (cr : Crypto) where
  unfoldable pub cipher_from_salt : V2 → Bytes → Result Cipher
  cipher_from_salt v salt =
      Errors.◌>>=◌ (derive_key cr v.password salt v.iterations) (λ key. new_gcm_cipher cr key)

  unfoldable pub server_handshake : V2 → Io Cipher
  server_handshake v = do
    salt ← wrap_err "atxp.ServerHandshake: salt" (on_entropy (rand_read salt_size))
    wrap_err "atxp.ServerHandshake" (arm_write v.timeout)
    map_err (failed "atxp.ServerHandshake") (write_bytes (handshake_header salt))
    lift (cipher_from_salt v salt)

  -- The checks of `ClientHandshake` on a header that was read in full.
  unfoldable pub check_header : V2 → Bytes → Result Cipher
  check_header v header =
      if not (eq_bytes (take (length handshake_magic) header) handshake_magic)
      then err (wrap "atxp.ClientHandshake: bad magic" (sentinel err_handshake))
      else if not (first (drop (length handshake_magic) header) == protocol_version_v2)
      then err (wrap "atxp.ClientHandshake: unsupported version" (sentinel err_handshake))
      else cipher_from_salt v (drop (length handshake_magic + 1) header)

  unfoldable pub client_handshake : V2 → Io Cipher
  client_handshake v = do
    wrap_err "atxp.ClientHandshake" (arm_read v.timeout)
    header ← map_err (failed "atxp.ClientHandshake") (read_full handshake_header_size)
    lift (check_header v header)
