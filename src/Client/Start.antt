-- ===== src/Client/Start.antt =====
-- The constructor of the client, on a connection to a server.
use atxp.Common.{◌≡◌, List, arith}
use atxp.Errors.{ok}
use atxp.Wire.{Bytes}
use atxp.Conn.{World}
use atxp.Conn.Stream.{stream}
use atxp.Crypto.{Crypto, Cipher}
use atxp.Frame.Transfer.{Delivers}
use atxp.Endpoint.{V2, OptionV2, new_v2, server_handshake, client_handshake}
use atxp.Endpoint.Handshake.{client_handshake-server_handshake}
use atxp.Client.{ClientV2, new_client_v2}

-- The client as `NewClientV2` makes it.
abbrev pub fresh_client : Cipher → Bytes → V2 → ClientV2
fresh_client c username v = record {
  cipher = c;
  username = username;
  max_frame_size = v.max_frame_size;
  send_seq = 0;
  recv_seq = 0;
}

module _ (cr : Crypto) where
  new_client_v2-shaken :
      (password username : Bytes) (opts : List OptionV2) (v : V2) (u : World) (c : Cipher)
      (rest : Bytes)
      → new_v2 password opts ≡ ok v
      → (client_handshake cr v u).0 ≡ ok c
      → stream (client_handshake cr v u).1.conn.incoming ≡ rest
      → ((new_client_v2 cr password username opts u).0 ≡ ok (fresh_client c username v))
        × (stream (new_client_v2 cr password username opts u).1.conn.incoming ≡ rest)
  unfolding new_client_v2
  new_client_v2-shaken password username opts v u c rest made shaken left = ground arith

  -- When the server's handshake returns a cipher, `NewClientV2` on a stream that begins with what the
  -- server put out returns a client with the same cipher, the given username, the cap of its own
  -- options and both counters at 0, and leaves what follows the header; the two endpoints must have the
  -- same password and iteration count, and the client's call of
  -- SetReadDeadline must succeed.
  pub new_client_v2-server_handshake :
      (password username rest : Bytes) (opts : List OptionV2) (v server : V2) (w u : World)
      (c : Cipher)
      → new_v2 password opts ≡ ok v
      → server.password ≡ v.password
      → server.iterations ≡ v.iterations
      → (server_handshake cr server w).0 ≡ ok c
      → Delivers w (server_handshake cr server w).1 u rest
      → ((new_client_v2 cr password username opts u).0 ≡ ok (fresh_client c username v))
        × (stream (new_client_v2 cr password username opts u).1.conn.incoming ≡ rest)
  new_client_v2-server_handshake password username rest opts v server w u c made p i h d =
      let (shaken, left) = client_handshake-server_handshake cr server v w u rest c p i h d in
      new_client_v2-shaken password username opts v u c rest made shaken left
