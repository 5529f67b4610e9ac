-- ===== src/Tests/PlainDialogues.antt =====
-- A run of a conversation of version 1 of two calls, of which the second is of a type without a handler.
use atxp.Common.{◌≡◌, refl, some, List, [], ◌∷◌, map, arith}
use atxp.Common.Int.{pos}
use atxp.Common.Table.{lookup}
use atxp.Errors.{ok}
use atxp.Wire.{Bytes}
use atxp.Conn.{World, write_bytes}
use atxp.Conn.Stream.{stream}
use atxp.Decimal.{print_int, digits}
use atxp.Packet.{serialize, type_to_string, index}
use atxp.Packet.Laws.{IsPlain}
use atxp.Transport.{scan, receive_loop, receive, send_packet}
use atxp.Response.{response_text, send_response, receive_response, scan_response, decode_response}
use atxp.PlainServer.{returns, serve_connection}
use atxp.PlainClient.{post_url, post_document, send_and_await}
use atxp.PlainClient.Exchange.{Request, for_url, requested}
use atxp.PlainClient.Peers.{AllSent, up_bytes, down_bytes, reply_to, all_acts}
use atxp.PlainClient.Dialogue.{perform_all, perform_all-serve_connection}
use atxp.Tests.Data.{box_of_option, blank_message, world_of, in_pieces}
use atxp.Tests.Packets.{sample_IsPlain}
use atxp.Tests.PlainPeers.{plain_server, user_known}
use atxp.Tests.PlainExchanges.{bob, request}

abbrev link : Request
link = for_url (104 ∷ [])

abbrev two_requests : List Request
two_requests = request ∷ link ∷ []

-- The bytes that the two sides send do not depend on what comes in.
abbrev sent_up : Bytes
sent_up =
    up_bytes ⦃box = box_of_option⦄ blank_message 0 plain_server bob 7 two_requests (world_of [])
      (world_of [])

abbrev far : World
far = in_pieces sent_up

abbrev sent_down : Bytes
sent_down =
    down_bytes ⦃box = box_of_option⦄ blank_message 0 plain_server bob 7 two_requests (world_of [])
      far

abbrev near : World
near = in_pieces sent_down

link-IsPlain : IsPlain ⦃box = box_of_option⦄ (requested ⦃box = box_of_option⦄ link bob)
unfolding index
link-IsPlain = record {
  no_newlines = refl;
  no_mark = refl;
  no_word = refl;
  no_tab_word = refl;
  username = sample_IsPlain.username;
  password = sample_IsPlain.password;
  filename = (refl, tt);
}

all_sent : AllSent ⦃box = box_of_option⦄ blank_message 0 plain_server bob 7 two_requests near far
unfolding send_packet serialize type_to_string write_bytes receive receive_loop scan send_response
    response_text print_int digits lookup receive_response scan_response decode_response post_url
    post_document send_and_await
all_sent = (
  sample_IsPlain,
  (30, refl),
  omega arith,
  (pos 8, refl),
  (link-IsPlain, (21, refl), omega arith, (pos 8, refl), tt),
)

up_arrives :
    stream far.conn.incoming
    ≡ up_bytes ⦃box = box_of_option⦄ blank_message 0 plain_server bob 7 two_requests near far
unfolding send_packet serialize type_to_string write_bytes receive receive_loop scan send_response
    response_text print_int digits lookup receive_response scan_response decode_response post_url
    post_document send_and_await
up_arrives = refl

down_arrives :
    stream near.conn.incoming
    ≡ down_bytes ⦃box = box_of_option⦄ blank_message 0 plain_server bob 7 two_requests near far
unfolding send_packet serialize type_to_string write_bytes receive receive_loop scan send_response
    response_text print_int digits lookup receive_response scan_response decode_response post_url
    post_document send_and_await
down_arrives = refl

perform_all-serve_connection_example :
    ((perform_all box_of_option two_requests bob near).0
      ≡ map
          (λ r. ok (reply_to ⦃box = box_of_option⦄ blank_message 0 plain_server bob 7 r))
          two_requests)
    × ((v : World) × (serve_connection ⦃box = box_of_option⦄ blank_message 0 3 plain_server far
          ≡ some (
            returns,
            all_acts ⦃box = box_of_option⦄ blank_message 0 plain_server bob 7 two_requests,
            v,
          )))
perform_all-serve_connection_example =
    perform_all-serve_connection ⦃box = box_of_option⦄ blank_message 0 plain_server bob 7
      two_requests 3 near far user_known all_sent up_arrives down_arrives (omega arith)
