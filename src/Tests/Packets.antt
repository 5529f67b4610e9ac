-- ===== src/Tests/Packets.antt =====
-- Runs of the packets of version 1, and instances of their laws.
use atxp.Common.{◌≡◌, refl, Option, some, [], ◌∷◌, ◌++◌, arith}
use atxp.Errors.{ok}
use atxp.Wire.{Bytes}
use atxp.Message.{Message}
use atxp.Packet.{
  index, type_to_string, serialize, deserialize, decoded, auth_mark, newlines, document_name, tabs,
}
use atxp.Packet.Parts.{auth_word}
use atxp.Packet.Laws.{IsPlain, delivered, deserialize-serialize}
use atxp.Conn.{World, arrive, write_bytes}
use atxp.Conn.Stream.{stream}
use atxp.Frame.Transfer.{sent_between}
use atxp.Transport.{scan, receive_loop, receive, send_packet}
use atxp.Transport.Laws.{receive-send_packet}
use atxp.Tests.Data.{
  box_of_option, blank_message, sample_message, world_of, in_pieces, in_pieces-stream,
}

abbrev pub sample_packet : Bytes
sample_packet =
    document_name
    ++ (tabs
        ++ (104 ∷ 105 ∷ (auth_mark ++ (98 ∷ 111 ∷ 98 ∷ 58 ∷ 58 ∷ 112 ∷ 58 ∷ 58 ∷ 102 ∷ newlines))))

sample_packed :
    serialize ⦃box = box_of_option⦄ (some sample_message) ≡ ok (sample_packet, sample_message)
unfolding serialize type_to_string
sample_packed = refl

pub sample_IsPlain : IsPlain ⦃box = box_of_option⦄ sample_message
unfolding index
sample_IsPlain = record {
  no_newlines = refl;
  no_mark = refl;
  no_word = refl;
  no_tab_word = refl;
  username = (refl, search arith depth 40);
  password = (refl, search arith depth 40);
  filename = (refl, search arith depth 40);
}

deserialize-serialize_example :
    deserialize ⦃box = box_of_option⦄ sample_packet (some blank_message)
    ≡ decoded (delivered ⦃box = box_of_option⦄ sample_message blank_message)
deserialize-serialize_example =
    deserialize-serialize ⦃box = box_of_option⦄ sample_message sample_message blank_message
      sample_packet sample_IsPlain sample_packed

-- A document of two lines with a tab, and a password with a colon, are plain too.
abbrev lined_message : Message (Option Bytes)
lined_message = record sample_message {
  body = some (104 ∷ 10 ∷ 9 ∷ 105 ∷ 10 ∷ []);
  auth = record { username = 98 ∷ []; password = 58 ∷ 112 ∷ 58 ∷ 113 ∷ [] };
}

lined_IsPlain : IsPlain ⦃box = box_of_option⦄ lined_message
unfolding index
lined_IsPlain = record {
  no_newlines = refl;
  no_mark = refl;
  no_word = refl;
  no_tab_word = refl;
  username = (refl, search arith depth 40);
  password = (refl, search arith depth 40);
  filename = (refl, search arith depth 40);
}

-- A document "Auth:".
abbrev pub marked_message : Message (Option Bytes)
marked_message = record sample_message { body = some auth_word }

abbrev pub marked_packet : Bytes
marked_packet =
    document_name
    ++ (tabs
        ++ (auth_word ++ (auth_mark ++ (98 ∷ 111 ∷ 98 ∷ 58 ∷ 58 ∷ 112 ∷ 58 ∷ 58 ∷ 102 ∷ newlines))))

pub marked_packed :
    serialize ⦃box = box_of_option⦄ (some marked_message) ≡ ok (marked_packet, marked_message)
unfolding serialize type_to_string
marked_packed = refl

abbrev packet_world : World
packet_world = (send_packet ⦃box = box_of_option⦄ (some sample_message) (world_of [])).2

packet_written : (send_packet ⦃box = box_of_option⦄ (some sample_message) (world_of [])).0 ≡ ok 30
unfolding send_packet serialize type_to_string write_bytes
packet_written = refl

receive-send_packet_example :
    (packet : Bytes) × ((receive (in_pieces (sent_between (world_of []) packet_world))).0
      ≡ ok packet)
    × (stream (receive (in_pieces (sent_between (world_of []) packet_world))).1.conn.incoming ≡ [])
    × (deserialize ⦃box = box_of_option⦄ packet (some blank_message)
        ≡ decoded (delivered ⦃box = box_of_option⦄ sample_message blank_message))
receive-send_packet_example =
    receive-send_packet ⦃box = box_of_option⦄ sample_message blank_message 30 [] (world_of [])
      (in_pieces (sent_between (world_of []) packet_world)) sample_IsPlain packet_written
      (in_pieces-stream (sent_between (world_of []) packet_world))

-- A stream that ends within a packet gives what has come in.
cut_run :
    (receive (world_of (arrive (1 ∷ 10 ∷ []) ∷ arrive (2 ∷ []) ∷ []))).0 ≡ ok (1 ∷ 10 ∷ 2 ∷ [])
unfolding receive receive_loop scan
cut_run = refl
