-- ===== src/Tests/Timeouts.antt =====
-- Runs of a server and of a client, with the deadlines that they set.
use atxp.Common.{◌≡◌, refl, [], ◌∷◌}
use atxp.Errors.{ok}
use atxp.Conn.{
  read_calls, arrive, read, arm_read, arm_write, write_bytes, read_full, read_loop, rand_read,
  random_bytes,
}
use atxp.Crypto.{derive_key, new_gcm_cipher}
use atxp.Endpoint.{
  server_handshake, client_handshake, cipher_from_salt, check_header, handshake_header, new_v2,
  apply_options,
}
use atxp.Client.{new_client_v2}
use atxp.Tests.Data.{toy_crypto, fresh_client}
use atxp.Tests.Connections.{shaking_world}

pub client_made :
    (new_client_v2 toy_crypto (112 ∷ 119 ∷ []) (98 ∷ 111 ∷ 98 ∷ []) [] shaking_world).0
    ≡ ok fresh_client
unfolding new_client_v2 new_v2 apply_options client_handshake check_header server_handshake
    cipher_from_salt derive_key new_gcm_cipher handshake_header arm_read read_full read_loop
    arm_write write_bytes rand_read random_bytes toy_crypto
client_made = refl

-- A buffer of 6 bytes is filled by three reads.
three_reads :
    read_calls 6 (arrive (1 ∷ 2 ∷ []) ∷ arrive (3 ∷ []) ∷ arrive (4 ∷ 5 ∷ 6 ∷ 7 ∷ []) ∷ [])
    ≡ read 6 ∷ read 4 ∷ read 3 ∷ []
unfolding read_calls
three_reads = refl
