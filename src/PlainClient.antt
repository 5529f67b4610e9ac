-- ===== src/PlainClient.antt =====
-- client.go: the client of version 1. Its connection is the `World`.
pub mod Exchange
pub mod Peers
pub mod Dialogue
use atxp.Common.{ℕ, Option, some, []}
use atxp.Errors.{Result, ok, err, wrap}
use Prim.Native.String.{String}
use atxp.Wire.{Bytes}
use atxp.Conn.{World, Io}
use atxp.Message.{Box, Auth, Message, Mt, ResponseCode, url, document, notification}
use atxp.Transport.{send_packet}
use atxp.Response.{receive_response}

pub record Client : Type 0 where
  pub auth : Auth

unfoldable pub new_client : Bytes → Bytes → Client
new_client username password = record { auth = record { username = username; password = password } }

-- What each of the methods does behind the call of `Send`.
abbrev pub await_response : String → Result ℕ → Io ResponseCode
await_response what (err e) w = (err (wrap what e), w)
await_response what (ok n) w = receive_response w

module _ {O : Type 0} ⦃box : Box O⦄ where
  -- The message that a method builds.
  abbrev pub packet_message : Client → Mt → Bytes → Bytes → Message O
  packet_message c message_type body filename = record {
    type = message_type;
    body = box.new_some body;
    auth = c.auth;
    filename = filename;
  }

module _ {O : Type 0} (box : Box O) where
  -- What the three methods have in common.
  unfoldable pub send_and_await : String → Client → Mt → Bytes → Bytes → Io ResponseCode
  send_and_await what c message_type body filename w =
      let (r, msg, w') =
        send_packet ⦃box = box⦄ (some (packet_message ⦃box = box⦄ c message_type body filename))
          w in
      await_response what r w'

  -- the methods `SendURL`, `SendDocument` and `SendNotification`
  unfoldable pub post_url : Client → Bytes → Io ResponseCode
  post_url c address w = send_and_await "failed to send URL frame" c url address [] w

  unfoldable pub post_document : Client → Bytes → Bytes → Io ResponseCode
  post_document c body filename w =
      send_and_await "failed to send document frame" c document body filename w

  unfoldable pub post_notification : Client → Bytes → Io ResponseCode
  post_notification c message w =
      send_and_await "failed to send notification frame" c notification message [] w
