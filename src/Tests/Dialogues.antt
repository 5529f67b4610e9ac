-- ===== src/Tests/Dialogues.antt =====
-- A run of a conversation of two calls, of which the second is of a type without a handler.
use atxp.Common.{◌≡◌, refl, Option, some, List, [], ◌∷◌, ℕ, arith}
use atxp.Common.Table.{lookup}
use atxp.Wire.{
  Bytes, append_uint32, append_uint64, append_field, uint32, uint64, read_byte, read_uint32,
  read_uint64, read_field, read_bytes, done,
}
use atxp.Conn.{
  World, arm_read, arm_write, write_bytes, read_full, read_loop, rand_read, random_bytes,
}
use atxp.Conn.Stream.{stream}
use atxp.Crypto.{gcm_cipher, seal_gcm, open_gcm}
use atxp.Message.{document, url}
use atxp.Envelope.{
  serialize_v2, serialize_response_v2, deserialize_v2, read_message, deserialize_response_v2,
  read_response,
}
use atxp.Frame.{
  frame_of, send_message_frame, write_frame, write_sealed, read_frame, read_sealed,
  receive_message_frame, send_response_frame, receive_response_frame,
}
use atxp.Server.{fresh_session, find_handler, loop}
use atxp.Exchange.Peers.{Call, Peers, AllWork, IsSynced, up_bytes, down_bytes, returned, behind_all}
use atxp.Exchange.Dialogue.{call_all, call_all-loop}
use atxp.Tests.Data.{
  fresh_client, box_of_option, toy_cipher, toy_cipher-IsSound, toy_server, toy_crypto, world_of,
  in_pieces, blank_message,
}

abbrev pub two_calls : List (Call ℕ)
two_calls =
    record { type = document; body = 104 ∷ 105 ∷ []; filename = 102 ∷ []; user = 7 }
    ∷ record { type = url; body = []; filename = []; user = 7 }
    ∷ []

abbrev peers_of : World → World → Peers (Option Bytes) ℕ
peers_of near far = record {
  client = fresh_client;
  session = fresh_session;
  near = near;
  far = far;
}

-- The bytes that the two sides send do not depend on what comes in.
abbrev sent_up : Bytes
sent_up =
    up_bytes ⦃box = box_of_option⦄ blank_message 0 toy_server two_calls
      (peers_of (world_of []) (world_of []))

abbrev sent_down : Bytes
sent_down =
    down_bytes ⦃box = box_of_option⦄ blank_message 0 toy_server two_calls
      (peers_of (world_of []) (world_of []))

abbrev two_peers : Peers (Option Bytes) ℕ
two_peers = peers_of (in_pieces sent_down) (in_pieces sent_up)

all_work : AllWork ⦃box = box_of_option⦄ blank_message 0 toy_server two_calls two_peers
unfolding send_message_frame serialize_v2 write_frame write_sealed arm_write write_bytes frame_of
    gcm_cipher seal_gcm rand_read random_bytes toy_crypto append_uint32 append_uint64 append_field
    receive_message_frame read_frame read_sealed read_full read_loop open_gcm send_response_frame
    arm_read deserialize_v2 read_message read_byte read_uint32 read_uint64 read_field read_bytes
    done serialize_response_v2 uint32 uint64 receive_response_frame deserialize_response_v2
    read_response find_handler lookup
all_work = (
  record {
    seq = omega arith;
    code = omega arith;
    payload = omega arith;
    username = omega arith;
    filename = omega arith;
  },
  refl,
  (63, refl),
  refl,
  (
    record {
      seq = omega arith;
      code = omega arith;
      payload = omega arith;
      username = omega arith;
      filename = omega arith;
    },
    refl,
    (60, refl),
    refl,
    tt,
  ),
)

synced : IsSynced ⦃box = box_of_option⦄ blank_message 0 toy_server two_peers 2
synced = record { seen = refl; heard = refl; room = omega arith; room' = omega arith }

up_arrives :
    stream two_peers.far.conn.incoming
    ≡ up_bytes ⦃box = box_of_option⦄ blank_message 0 toy_server two_calls two_peers
unfolding send_message_frame serialize_v2 write_frame write_sealed arm_write write_bytes frame_of
    gcm_cipher seal_gcm rand_read random_bytes toy_crypto append_uint32 append_uint64 append_field
    receive_message_frame read_frame read_sealed read_full read_loop open_gcm send_response_frame
    arm_read deserialize_v2 read_message read_byte read_uint32 read_uint64 read_field read_bytes
    done serialize_response_v2 uint32 uint64 receive_response_frame deserialize_response_v2
    read_response find_handler lookup
up_arrives = refl

down_arrives :
    stream two_peers.near.conn.incoming
    ≡ down_bytes ⦃box = box_of_option⦄ blank_message 0 toy_server two_calls two_peers
unfolding send_message_frame serialize_v2 write_frame write_sealed arm_write write_bytes frame_of
    gcm_cipher seal_gcm rand_read random_bytes toy_crypto append_uint32 append_uint64 append_field
    receive_message_frame read_frame read_sealed read_full read_loop open_gcm send_response_frame
    arm_read deserialize_v2 read_message read_byte read_uint32 read_uint64 read_field read_bytes
    done serialize_response_v2 uint32 uint64 receive_response_frame deserialize_response_v2
    read_response find_handler lookup
down_arrives = refl

call_all-loop_example :
    (call_all box_of_option two_calls fresh_client two_peers.near ≡ (
      returned ⦃box = box_of_option⦄ blank_message 0 toy_server two_calls two_peers,
      (behind_all ⦃box = box_of_option⦄ blank_message 0 toy_server two_calls two_peers).client,
      (behind_all ⦃box = box_of_option⦄ blank_message 0 toy_server two_calls two_peers).near,
    ))
    × ((v : World) × (loop ⦃box = box_of_option⦄ blank_message 0 3 toy_server toy_cipher
            fresh_session two_peers.far
          ≡ some (
            (behind_all ⦃box = box_of_option⦄ blank_message 0 toy_server two_calls
                two_peers).session,
            v,
          )))
call_all-loop_example =
    call_all-loop ⦃box = box_of_option⦄ blank_message 0 toy_server two_calls two_peers 3
      toy_cipher-IsSound refl refl synced refl refl all_work up_arrives down_arrives (omega arith)
