-- ===== src/Tests/PlainPeers.antt =====
-- Runs of the server of version 1, and instances of its theorems.
use atxp.Common.{
  ℕ, ◌<◌, ◌≡◌, ◌↔◌, ◌⊎◌, refl, ◌∙◌, append-nil, Option, some, List, [], ◌∷◌, ◌++◌, ◌&&◌, length,
  eq_bytes, arith, false, map, All, ◌≤◌,
}
use atxp.Common.Table.{lookup}
use atxp.Common.Int.{pos}
use atxp.Wire.{Bytes}
use atxp.Conn.{World, write_bytes, close, write, close_conn}
use atxp.Conn.Stream.{stream}
use atxp.Message.{Message, document, ok_code, error_code}
use atxp.Packet.{deserialize, index, split_colons, string_to_type, fill}
use atxp.Transport.{scan, receive_loop, receive}
use atxp.Transport.Packets.{packets_from, packets_of}
use atxp.Response.{response_text, send_response}
use atxp.PlainServer.{
  validate_document, Control, returns, panics, Act, handed, responded, Server, check_auth,
  call_handler, admit_message, handle_message, handle_raw, packet_round, packet_loop,
  serve_connection, validate_url, http_scheme, https_scheme,
}
use atxp.PlainServer.Spec.{IsAccepted, Serves, Orderly, replies, codes}
use atxp.PlainServer.Connection.{
  serve_connection-Serves, serve_connection-Orderly, serve_connection_panics,
}
use atxp.PlainServer.Answers.{all_bytes, answers, Welcome, serve_connection-answers}
use atxp.PlainServer.Validate.{validate_url_lem, validate_document_lem}
use atxp.Tests.Data.{box_of_option, blank_message, sample_message, in_pieces, in_pieces-stream}
use atxp.Tests.Packets.{sample_packet, sample_IsPlain, marked_message, marked_packet, marked_packed}

-- A server that knows the user "bob" with the password "p", and has a handler for documents.
abbrev pub plain_server : Server (Option Bytes) ℕ
plain_server = record {
  auth_fn = some (λ username password.
      (eq_bytes username (98 ∷ 111 ∷ 98 ∷ []) && eq_bytes password (112 ∷ []), 7));
  handlers = (document, λ msg auth_data. ok_code) ∷ [];
}

-- The document, and the start of a packet.
abbrev cut_bytes : Bytes
cut_bytes = sample_packet ++ b'U' ∷ b'R' ∷ []

cut_packets :
    packets_of (in_pieces cut_bytes).conn.incoming ≡ sample_packet ∷ (b'U' ∷ b'R' ∷ []) ∷ []
unfolding packets_from
cut_packets = refl

few_packets : length (packets_of (in_pieces cut_bytes).conn.incoming) < 5
few_packets = rw cut_packets (omega arith)

cut_run :
    serve_connection ⦃box = box_of_option⦄ blank_message 0 5 plain_server (in_pieces cut_bytes)
    ≡ some (
      returns,
      handed sample_message 7 ∷ responded ok_code ∷ responded error_code ∷ [],
      record (in_pieces cut_bytes) {
        conn = record (in_pieces cut_bytes).conn {
          incoming = [];
          trace = write (response_text ok_code) ∷ write (response_text error_code) ∷ close ∷ [];
        };
      },
    )
unfolding serve_connection packet_loop packet_round handle_raw handle_message admit_message
    call_handler check_auth receive receive_loop scan deserialize index split_colons fill
    string_to_type lookup send_response write_bytes response_text close_conn
cut_run = refl

serve_connection-Serves_example :
    (next : Control) × (acts : List (Act (Option Bytes) ℕ)) × (w' : World) × (serve_connection
        ⦃box = box_of_option⦄ blank_message 0 5 plain_server
        (in_pieces cut_bytes)
      ≡ some (next, acts, w'))
    × Serves ⦃box = box_of_option⦄ blank_message 0 plain_server
        (packets_of (in_pieces cut_bytes).conn.incoming)
        next
        acts
    × (w'.conn.trace ≡ [] ++ (replies [] acts ++ close ∷ []))
serve_connection-Serves_example =
    serve_connection-Serves ⦃box = box_of_option⦄ blank_message 0 5 plain_server
      (in_pieces cut_bytes) few_packets

serve_connection-Orderly_example :
    (next : Control) × (acts : List (Act (Option Bytes) ℕ)) × (w' : World) × (serve_connection
        ⦃box = box_of_option⦄ blank_message 0 5 plain_server
        (in_pieces cut_bytes)
      ≡ some (next, acts, w'))
    × Orderly 0 plain_server acts
serve_connection-Orderly_example =
    serve_connection-Orderly ⦃box = box_of_option⦄ blank_message 0 5 plain_server
      (in_pieces cut_bytes) few_packets

marked_packets : packets_of (in_pieces marked_packet).conn.incoming ≡ marked_packet ∷ []
unfolding packets_from
marked_packets = refl

one_packet : length (packets_of (in_pieces marked_packet).conn.incoming) < 5
one_packet = rw marked_packets (omega arith)

serve_connection_panics_example :
    (w' : World) × (serve_connection ⦃box = box_of_option⦄ blank_message 0 5 plain_server
        (in_pieces marked_packet)
      ≡ some (panics, [], w'))
    × (w'.conn.trace ≡ [] ++ close ∷ [])
serve_connection_panics_example =
    serve_connection_panics ⦃box = box_of_option⦄ blank_message 0 5 plain_server
      (in_pieces marked_packet) marked_message marked_message marked_packet [] one_packet
      marked_packets refl marked_packed

-- Two documents of the user "bob".
abbrev two_messages : List (Message (Option Bytes) × ℕ)
two_messages = (sample_message, 7) ∷ (sample_message, 7) ∷ []

pub user_known : IsAccepted 0 plain_server.auth_fn sample_message.auth 7
user_known = refl

two_Welcome : All (Welcome ⦃box = box_of_option⦄ blank_message 0 plain_server) two_messages
two_Welcome = ((sample_IsPlain, user_known), ((sample_IsPlain, user_known), tt))

abbrev two_world : World
two_world = in_pieces (all_bytes ⦃box = box_of_option⦄ (map (λ p. p.0) two_messages))

two_arrive :
    stream two_world.conn.incoming ≡ all_bytes ⦃box = box_of_option⦄ (map (λ p. p.0) two_messages)
two_arrive =
    in_pieces-stream (all_bytes ⦃box = box_of_option⦄ (map (λ p. p.0) two_messages)) ∙ append-nil _

serve_connection-answers_example :
    (acts : List (Act (Option Bytes) ℕ)) × (w' : World) × (serve_connection ⦃box = box_of_option⦄
        blank_message 0 3 plain_server two_world
      ≡ some (returns, acts, w'))
    × (codes acts ≡ answers ⦃box = box_of_option⦄ blank_message 0 plain_server two_messages)
    × (w'.conn.trace ≡ [] ++ (replies [] acts ++ close ∷ []))
serve_connection-answers_example =
    serve_connection-answers ⦃box = box_of_option⦄ blank_message 0 plain_server 3 two_messages
      two_world two_Welcome two_arrive (omega arith)

validate_url_lem_example :
    ((validate_url {D = ℕ} ⦃box = box_of_option⦄ sample_message 0 ≡ ok_code) ↔ (
      (false ≡ false)
      × ((rest : Bytes) × ((104 ∷ 105 ∷ [] ≡ http_scheme ++ rest)
            ⊎ (104 ∷ 105 ∷ [] ≡ https_scheme ++ rest)))))
    × ((validate_url {D = ℕ} ⦃box = box_of_option⦄ sample_message 0 ≡ ok_code)
        ⊎ (validate_url {D = ℕ} ⦃box = box_of_option⦄ sample_message 0 ≡ error_code))
validate_url_lem_example = validate_url_lem ⦃box = box_of_option⦄ sample_message 0

validate_document_lem_example :
    ((validate_document {D = ℕ} ⦃box = box_of_option⦄ (pos 2) sample_message 0 ≡ ok_code)
      ↔ ((false ≡ false) × ((n : ℕ) × (pos 2 ≡ pos n) × (1 ≤ 2) × (2 ≤ n))))
    × ((validate_document {D = ℕ} ⦃box = box_of_option⦄ (pos 2) sample_message 0 ≡ ok_code)
        ⊎ (validate_document {D = ℕ} ⦃box = box_of_option⦄ (pos 2) sample_message 0 ≡ error_code))
validate_document_lem_example = validate_document_lem ⦃box = box_of_option⦄ (pos 2) sample_message 0
