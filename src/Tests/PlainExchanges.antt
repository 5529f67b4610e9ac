-- ===== src/Tests/PlainExchanges.antt =====
-- A response of version 1 that comes in at the client.
use atxp.Common.{◌≡◌, refl, some, [], ◌∷◌, ◌++◌, length, arith}
use atxp.Common.Int.{pos}
use atxp.Errors.{ok}
use atxp.Conn.{World, write_bytes}
use atxp.Conn.Stream.{stream}
use atxp.Frame.Transfer.{sent_between}
use atxp.Message.{ok_code}
use atxp.Packet.{type_to_string, serialize}
use atxp.Decimal.{digits, print_int}
use atxp.Transport.{scan, receive_loop, receive, send_packet}
use atxp.Response.{response_text, send_response, receive_response}
use atxp.Response.Laws.{receive_response-send_response}
use atxp.PlainClient.{Client}
use atxp.PlainClient.Exchange.{Request, for_document}
use atxp.Tests.Data.{box_of_option, sample_message, world_of, in_pieces}

-- The exchange: "bob" sends the document, and the server answers.
abbrev pub bob : Client
bob = record { auth = sample_message.auth }

abbrev pub request : Request
request = for_document (104 ∷ 105 ∷ []) (102 ∷ [])

abbrev asked : World → World
asked w = (send_packet ⦃box = box_of_option⦄ (some sample_message) w).2

abbrev server_world : World
server_world = in_pieces (sent_between (world_of []) (asked (world_of [])))

abbrev taken_world : World
taken_world = (receive server_world).1

abbrev answered_world : World
answered_world = (send_response ok_code taken_world).1

abbrev client_world : World
client_world = in_pieces (sent_between taken_world answered_world)

response_sent : (send_response ok_code taken_world).0 ≡ ok (pos 8)
unfolding send_packet serialize type_to_string write_bytes receive receive_loop scan send_response
    response_text print_int digits
response_sent = refl

response_arrives_first :
    stream client_world.conn.incoming ≡ sent_between taken_world answered_world ++ []
unfolding send_packet serialize type_to_string write_bytes receive receive_loop scan send_response
    response_text
response_arrives_first = refl

receive_response-send_response_example :
    ((receive_response client_world).0 ≡ ok ok_code)
    × (stream (receive_response client_world).1.conn.incoming ≡ [])
    × (pos 8 ≡ pos (length (response_text ok_code)))
receive_response-send_response_example =
    receive_response-send_response ok_code (pos 8) [] taken_world client_world (omega arith)
      response_sent response_arrives_first
