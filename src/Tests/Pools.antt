-- ===== src/Tests/Pools.antt =====
-- Runs of Serve and of the goroutines that it starts, and instances of their theorems.
use atxp.Common.{ℕ, ◌≡◌, refl, Option, some, [], ◌∷◌}
use atxp.Common.Table.{lookup, insert}
use atxp.Errors.{ok, err, other}
use atxp.Wire.{
  Bytes, append_uint32, append_uint64, append_field, uint32, uint64, read_byte, read_uint32,
  read_uint64, read_field, read_bytes, done,
}
use atxp.Conn.{
  World, arm_read, arm_write, write_bytes, read_full, read_loop, rand_read, random_bytes,
  close_conn,
}
use atxp.Crypto.{derive_key, new_gcm_cipher, gcm_cipher, seal_gcm, open_gcm}
use atxp.Message.{url, ok_code}
use atxp.Envelope.{serialize_v2, serialize_response_v2, deserialize_v2, read_message}
use atxp.Frame.{
  frame_of, send_message_frame, write_frame, write_sealed, read_frame, read_sealed,
  receive_message_frame, send_response_frame,
}
use atxp.Endpoint.{server_handshake, cipher_from_salt, handshake_header}
use atxp.Server.{
  Next, go_on, stop, Session, ServerV2, fresh_session, register_handler, find_handler, authorize,
  reply, dispatch, admit, handle_frame, round, Listener, serve_v2,
}
use atxp.Server.Concurrent.{
  registers, accepts, goes_on, ends, Reachable, started, continued, AllSafe, Reachable-AllSafe,
}
use atxp.Tests.Data.{box_of_option, toy_crypto, toy_cipher, toy_endpoint, toy_server, blank_message}
use atxp.Tests.Connections.{replayed_world}

-- The world behind the handshake, behind the first round, and behind the second.
abbrev shaken_world : World
shaken_world = (server_handshake toy_crypto toy_endpoint replayed_world).1

abbrev both_server : ServerV2 (Option Bytes) ℕ
both_server = register_handler url (λ msg auth. ok_code) toy_server

abbrev first_round : Next × Session (Option Bytes) ℕ × World
first_round =
    round ⦃box = box_of_option⦄ blank_message 0 both_server toy_cipher fresh_session shaken_world

abbrev second_round : Next × Session (Option Bytes) ℕ × World
second_round =
    round ⦃box = box_of_option⦄ blank_message 0 both_server toy_cipher first_round.1 first_round.2

handshake_done :
    server_handshake toy_crypto toy_endpoint replayed_world ≡ (ok toy_cipher, shaken_world)
unfolding round handle_frame admit dispatch reply authorize find_handler server_handshake
    cipher_from_salt derive_key new_gcm_cipher handshake_header receive_message_frame read_frame
    read_sealed read_full read_loop open_gcm send_response_frame arm_read deserialize_v2
    read_message read_byte read_uint32 read_uint64 read_field read_bytes done serialize_response_v2
    uint32 uint64 send_message_frame serialize_v2 write_frame write_sealed arm_write write_bytes
    frame_of gcm_cipher seal_gcm rand_read random_bytes toy_crypto append_uint32 append_uint64
    append_field lookup register_handler insert
handshake_done = refl

first_goes_on : first_round ≡ (go_on, first_round.1, first_round.2)
unfolding round handle_frame admit dispatch reply authorize find_handler server_handshake
    cipher_from_salt derive_key new_gcm_cipher handshake_header receive_message_frame read_frame
    read_sealed read_full read_loop open_gcm send_response_frame arm_read deserialize_v2
    read_message read_byte read_uint32 read_uint64 read_field read_bytes done serialize_response_v2
    uint32 uint64 send_message_frame serialize_v2 write_frame write_sealed arm_write write_bytes
    frame_of gcm_cipher seal_gcm rand_read random_bytes toy_crypto append_uint32 append_uint64
    append_field lookup register_handler insert
first_goes_on = refl

second_ends : second_round ≡ (stop, second_round.1, second_round.2)
unfolding round handle_frame admit dispatch reply authorize find_handler server_handshake
    cipher_from_salt derive_key new_gcm_cipher handshake_header receive_message_frame read_frame
    read_sealed read_full read_loop open_gcm send_response_frame arm_read deserialize_v2
    read_message read_byte read_uint32 read_uint64 read_field read_bytes done serialize_response_v2
    uint32 uint64 send_message_frame serialize_v2 write_frame write_sealed arm_write write_bytes
    frame_of gcm_cipher seal_gcm rand_read random_bytes toy_crypto append_uint32 append_uint64
    append_field lookup register_handler insert
second_ends = refl

-- A handler is registered, the connection is accepted, and takes its two rounds.
pool_reached : Reachable ⦃box = box_of_option⦄ blank_message 0 toy_crypto toy_server (record {
  server = both_server;
  live = [];
  done = (second_round.1, (close_conn second_round.2).1) ∷ [];
})
unfolding register_handler
pool_reached =
    continued _ _
      (continued _ _
        (continued _ _ (continued _ _ started (registers url (λ msg auth. ok_code)))
          (accepts replayed_world shaken_world toy_cipher handshake_done))
        (goes_on [] []
          (record { cipher = toy_cipher; session = fresh_session; world = shaken_world })
          first_round.1 first_round.2 refl first_goes_on))
      (ends [] [] (record { cipher = toy_cipher; session = first_round.1; world = first_round.2 })
        second_round.1 second_round.2 refl second_ends)

Reachable-AllSafe_example :
    AllSafe 0 (record {
      server = both_server;
      live = [];
      done = (second_round.1, (close_conn second_round.2).1) ∷ [];
    })
    × (both_server.auth_fn ≡ toy_server.auth_fn)
Reachable-AllSafe_example =
    Reachable-AllSafe 0 ⦃box = box_of_option⦄ blank_message toy_crypto toy_server _ pool_reached

-- A listener that accepts the connection, and then fails.
abbrev one_connection : Listener
one_connection = ok replayed_world ∷ err (other 1) ∷ []

one_served : serve_v2 (some one_connection) ≡ (replayed_world ∷ [], some (other 1))
unfolding serve_v2
one_served = refl
