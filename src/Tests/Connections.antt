-- ===== src/Tests/Connections.antt =====
-- Runs of a whole connection of the server, and of the two sides of a handshake.
use atxp.Common.{
  ℕ, ◌≡◌, refl, Option, none, some, List, [], ◌∷◌, ◌++◌, length, take, drop, arith, All,
}
use atxp.Common.Int.{ℤ}
use atxp.Common.Table.{lookup}
use atxp.Errors.{ok}
use atxp.Wire.{
  Bytes, append_uint32, append_uint64, append_field, uint32, uint64, read_byte, read_uint32,
  read_uint64, read_field, read_bytes, done,
}
use atxp.Conn.{
  World, arrive, arm_read, arm_write, write_bytes, read_full, read_loop, rand_read, random_bytes,
  close_conn,
}
use atxp.Conn.Stream.{stream}
use atxp.Crypto.{gcm_cipher, seal_gcm, open_gcm, derive_key, new_gcm_cipher}
use atxp.Message.{ok_code, error_code}
use atxp.Envelope.{serialize_v2, serialize_response_v2, deserialize_v2, read_message}
use atxp.Frame.{
  frame_of, send_message_frame, write_frame, write_sealed, read_frame, read_sealed,
  receive_message_frame, send_response_frame,
}
use atxp.Frame.Transfer.{sent_between}
use atxp.Endpoint.{server_handshake, client_handshake, cipher_from_salt, handshake_header}
use atxp.Endpoint.Handshake.{client_handshake-server_handshake}
use atxp.Server.{
  Session, Entry, dispatched, replied, handle_connection, loop, round, handle_frame, admit,
  dispatch, reply, authorize, find_handler,
}
use atxp.Server.Spec.{Rises, Counts, dispatched_seqs, reply_seqs, Permitted}
use atxp.Server.Connection.{IsHandled, handle_connection-IsHandled}
use atxp.Endpoint.{new_v2, apply_options}
use atxp.Server.Fuel.{handle_connection_settles}
use atxp.Server.Promises.{handle_connection_seqs, handle_connection-Permitted}
use atxp.Tests.Data.{
  box_of_option, toy_crypto, toy_cipher, toy_endpoint, toy_server, world_of, in_pieces,
  in_pieces-stream, blank_message, client_sent,
}

-- The client's frame comes in twice, in pieces: the second is a replay.
abbrev pub replayed_world : World
replayed_world =
    let bs = sent_between (world_of []) client_sent in
    world_of (arrive (take 9 bs) ∷ arrive (drop 9 bs ++ bs) ∷ [])

-- The sequence numbers and codes of the replies.
abbrev codes : List (Entry (Option Bytes) ℕ) → List (ℕ × ℤ)
codes [] = []
codes (dispatched seq msg auth ∷ es) = codes es
codes (replied seq code ∷ es) = (seq, code) ∷ codes es

abbrev outcome_of : Option (Session (Option Bytes) ℕ × World) → ℕ × ℕ × List ℕ × List (ℕ × ℤ)
outcome_of none = (0, 0, [], [])
outcome_of (some (st, w)) = (st.recv_seq, st.send_seq, dispatched_seqs st.history, codes st.history)

-- The first frame is handled, the replay is answered with an error.
replayed_run :
    outcome_of (
      handle_connection ⦃box = box_of_option⦄ blank_message 0 toy_crypto 200 toy_server
        replayed_world)
    ≡ (1, 2, 1 ∷ [], (1, ok_code) ∷ (2, error_code) ∷ [])
unfolding handle_connection loop round handle_frame admit dispatch reply authorize find_handler
    server_handshake cipher_from_salt derive_key new_gcm_cipher handshake_header
    receive_message_frame read_frame read_sealed read_full read_loop open_gcm send_response_frame
    arm_read close_conn deserialize_v2 read_message read_byte read_uint32 read_uint64 read_field
    read_bytes done serialize_response_v2 uint32 uint64 send_message_frame serialize_v2 write_frame
    write_sealed arm_write write_bytes frame_of gcm_cipher seal_gcm rand_read random_bytes
    toy_crypto append_uint32 append_uint64 append_field lookup
replayed_run = refl

pub replayed_length : length (stream replayed_world.conn.incoming) ≡ 126
unfolding send_message_frame serialize_v2 write_frame write_sealed arm_write write_bytes frame_of
    gcm_cipher seal_gcm rand_read random_bytes toy_crypto append_uint32 append_uint64 append_field
replayed_length = refl

handle_connection-IsHandled_example :
    (q : Session (Option Bytes) ℕ × World) × (handle_connection ⦃box = box_of_option⦄ blank_message
        0 toy_crypto 200 toy_server replayed_world
      ≡ some q)
    × IsHandled 0 toy_server replayed_world q
handle_connection-IsHandled_example =
    handle_connection-IsHandled 0 toy_server ⦃box = box_of_option⦄ blank_message toy_crypto 200
      replayed_world (rw replayed_length (omega arith))

handle_connection_settles_example :
    (q : Session (Option Bytes) ℕ × World) × (handle_connection ⦃box = box_of_option⦄ blank_message
        0 toy_crypto 200 toy_server replayed_world
      ≡ some q)
    × (handle_connection ⦃box = box_of_option⦄ blank_message 0 toy_crypto 1000 toy_server
          replayed_world
        ≡ some q)
handle_connection_settles_example =
    handle_connection_settles ⦃box = box_of_option⦄ blank_message 0 toy_server toy_crypto 200 1000
      replayed_world (rw replayed_length (omega arith)) (rw replayed_length (omega arith))

handle_connection_seqs_example :
    (q : Session (Option Bytes) ℕ × World) × (handle_connection ⦃box = box_of_option⦄ blank_message
        0 toy_crypto 200 toy_server replayed_world
      ≡ some q)
    × Rises 0 (dispatched_seqs q.0.history) q.0.recv_seq
    × Counts 0 (reply_seqs q.0.history) q.0.send_seq
handle_connection_seqs_example =
    handle_connection_seqs ⦃box = box_of_option⦄ blank_message 0 toy_crypto 200 toy_server
      replayed_world (rw replayed_length (omega arith))

handle_connection-Permitted_example :
    (q : Session (Option Bytes) ℕ × World) × (handle_connection ⦃box = box_of_option⦄ blank_message
        0 toy_crypto 200 toy_server replayed_world
      ≡ some q)
    × All (Permitted 0 toy_server) q.0.history
handle_connection-Permitted_example =
    handle_connection-Permitted ⦃box = box_of_option⦄ blank_message 0 toy_crypto 200 toy_server
      replayed_world (rw replayed_length (omega arith))

-- The world of a client to which the header of the toy server's handshake comes in pieces.
abbrev pub shaking_world : World
shaking_world =
    in_pieces
      (sent_between (world_of []) (server_handshake toy_crypto toy_endpoint (world_of [])).1)

shaken : (server_handshake toy_crypto toy_endpoint (world_of [])).0 ≡ ok toy_cipher
unfolding server_handshake cipher_from_salt derive_key new_gcm_cipher handshake_header arm_write
    write_bytes rand_read random_bytes toy_crypto
shaken = refl

client_handshake-server_handshake_example :
    ((client_handshake toy_crypto toy_endpoint shaking_world).0 ≡ ok toy_cipher)
    × (stream (client_handshake toy_crypto toy_endpoint shaking_world).1.conn.incoming ≡ [])
client_handshake-server_handshake_example =
    client_handshake-server_handshake toy_crypto toy_endpoint toy_endpoint (world_of [])
      shaking_world [] toy_cipher refl refl shaken
      (record {
        arrives =
            in_pieces-stream (
              sent_between (world_of [])
                (server_handshake toy_crypto toy_endpoint (world_of [])).1);
        works = refl;
      })

pub toy_made : new_v2 (112 ∷ 119 ∷ []) [] ≡ ok toy_endpoint
unfolding new_v2 apply_options
toy_made = refl
