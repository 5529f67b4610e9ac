-- ===== src/Endpoint/Deadlines.antt =====
-- Frames and handshakes are read and written under deadlines.
use atxp.Common.{◌≡◌, refl, ◌⊎◌, inl, inr}
use atxp.Common.Int.{ℤ}
use atxp.Wire.{Bytes}
use atxp.Conn.Deadline.{idle}
use atxp.Conn.Guarded.{Guarded, Guarded-bind, deadline_rules}
use atxp.Crypto.{Crypto, Cipher}
use atxp.Frame.{default_io_timeout, read_frame, read_sealed, write_frame, write_sealed}
use atxp.Endpoint.{V2, server_handshake, client_handshake}

-- 30 seconds, or the timeout of the endpoint
abbrev pub IsTimeout : V2 → ℤ → Type 0
IsTimeout v d = (d ≡ default_io_timeout) ⊎ (d ≡ v.timeout)

module _ (v : V2) where
  default_io_timeout-IsTimeout : IsTimeout v default_io_timeout
  default_io_timeout-IsTimeout = inl refl

  timeout-IsTimeout : IsTimeout v v.timeout
  timeout-IsTimeout = inr refl

  pub read_frame-Guarded : (c : Cipher) (cap : ℤ) → Guarded (IsTimeout v) idle (read_frame c cap)
  unfolding read_frame read_sealed
  read_frame-Guarded c cap =
      search (deadline_rules, Guarded-bind, default_io_timeout-IsTimeout) depth 14

  pub write_frame-Guarded :
      (c : Cipher) (plaintext : Bytes) (cap : ℤ)
      → Guarded (IsTimeout v) idle (write_frame c plaintext cap)
  unfolding write_frame write_sealed
  write_frame-Guarded c plaintext cap =
      search (deadline_rules, Guarded-bind, default_io_timeout-IsTimeout) depth 14

  pub server_handshake-Guarded : (cr : Crypto) → Guarded (IsTimeout v) idle (server_handshake cr v)
  unfolding server_handshake
  server_handshake-Guarded cr = search (deadline_rules, Guarded-bind, timeout-IsTimeout) depth 14

  pub client_handshake-Guarded : (cr : Crypto) → Guarded (IsTimeout v) idle (client_handshake cr v)
  unfolding client_handshake
  client_handshake-Guarded cr = search (deadline_rules, Guarded-bind, timeout-IsTimeout) depth 14
