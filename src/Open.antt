-- ===== src/Open.antt =====
-- atxp.go: the functions that open and close connections. The packages net and crypto/tls are
-- parameters: what they listen on, or dial, is given by an address in bytes.
use atxp.Common.{Option, none, some, ◌∷◌}
use atxp.Common.Int.{ℤ}
use atxp.Errors.{Result, err, new_error}
use atxp.Wire.{Bytes}
use atxp.Conn.{Io, pure, close_conn}
use atxp.Decimal.{print_int}

-- `L` is a listener, `K` a connection, and `C` a configuration of TLS, none for nil.
module _ {L : Type 0} where
  -- net.Listen("tcp", addr)
  unfoldable pub create_server : (Bytes → Result L) → ℤ → Result L
  create_server listen port = listen (b':' ∷ print_int port)

module _ {L C : Type 0} where
  -- tls.Listen("tcp", addr, config)
  unfoldable pub create_tls_server : (Bytes → C → Result L) → ℤ → Option C → Result L
  create_tls_server listen port none = err (new_error "tls configuration cannot be nil")
  create_tls_server listen port (some config) = listen (b':' ∷ print_int port) config

-- `join` is net.JoinHostPort; strconv.Itoa prints as `%d` does.
module _ {K : Type 0} (join : Bytes → Bytes → Bytes) where
  -- net.Dial("tcp", addr)
  unfoldable pub connect_client : (Bytes → Result K) → Bytes → ℤ → Result K
  connect_client dial host port = dial (join host (print_int port))

module _ {K C : Type 0} (join : Bytes → Bytes → Bytes) where
  -- tls.Dial("tcp", addr, config)
  unfoldable pub connect_tls_client :
      (Bytes → Option C → Result K) → Bytes → ℤ → Option C → Result K
  connect_tls_client dial host port config = dial (join host (print_int port)) config

-- CloseClient; none for nil, and else the connection of the world
unfoldable pub close_nullable : Option (Unit {0}) → Io (Unit {0})
close_nullable none = pure tt
close_nullable (some conn) = close_conn
