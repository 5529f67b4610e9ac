-- ===== src/Exchange.antt =====
-- client_v2.go and server_v2.go together: one exchange, from the call of a method of the client to the
-- response that it returns, through one round of the server's loop on the other side.
pub mod Peers
pub mod Dialogue
pub mod Late
pub mod Deadlines
pub mod Wire
pub mod Nonces
use atxp.Common.{ℕ, ◌<◌, ◌≡◌, refl, ap, true, false, some, leb, arith}
use atxp.Common.Int.{pos, le_int, to_uint32}
use atxp.Errors.{Result, ok}
use atxp.Wire.{Bytes}
use atxp.Conn.{World}
use atxp.Crypto.{Cipher}
use atxp.Crypto.Laws.{IsSound}
use atxp.Message.{Box, Message, Mt, ResponseCode}
use atxp.Envelope.Layout.{Fits, fields_of}
use atxp.Envelope.Laws.{received}
use atxp.Frame.{
  send_message_frame, receive_message_frame, send_response_frame, receive_response_frame,
}
use atxp.Frame.Transfer.{
  Delivers, receive_message_frame-send_message_frame, receive_response_frame-send_response_frame,
}
use atxp.Client.{ClientV2, next_seq, message_of, accept_reply, await_reply, send}
use atxp.Server.{
  go_on, Session, Handler, ServerV2, find_handler, authorize, reply, dispatch, admit, handle_frame,
  round,
}
use atxp.Server.Spec.{answered, noted}

module _ {O D : Type 0} (no_auth : D) (s : ServerV2 O D) (c : Cipher) where
  -- A new frame of an authorized user, of a type with a handler, is answered with the handler's code.
  handle_frame_handled :
      (msg : Message O) (seq : ℕ) (auth : D) (handler : Handler O D) (st : Session O D) (w : World)
      → st.recv_seq < seq
      → authorize no_auth s.auth_fn msg ≡ some auth
      → find_handler s msg.type ≡ some handler
      → handle_frame no_auth s c (ok (msg, seq)) st w ≡ (
        go_on,
        answered seq (handler msg auth) (noted seq msg auth st),
        (send_response_frame c (handler msg auth) (next_seq st.send_seq) s.v.max_frame_size w).1,
      )
  unfolding handle_frame admit dispatch reply
  handle_frame_handled msg seq auth handler st w lt a f =
      let new : leb seq st.recv_seq ≡ false = ground arith in rw (new, a, f) refl

-- `send` when its message is sent and a new response has come.
module _ {O : Type 0} (box : Box O) where
  pub send_answered :
      (k : ClientV2) (message_type : Mt) (body filename : Bytes) (w : World) (n seq : ℕ)
      (code : ResponseCode)
      → let k' = record k { send_seq = next_seq k.send_seq } in
        let r =
          send_message_frame ⦃box = box⦄ k.cipher
            (some (message_of ⦃box = box⦄ k message_type body filename))
            (next_seq k.send_seq)
            k.max_frame_size
            w in
        r.0 ≡ ok n
        → (receive_response_frame k.cipher k.max_frame_size r.1).0 ≡ ok (code, seq)
        → k.recv_seq < seq
        → send box k message_type body filename w ≡ (
          ok code,
          record k' { recv_seq = seq },
          (receive_response_frame k.cipher k.max_frame_size r.1).1,
        )
  unfolding send await_reply accept_reply
  send_answered k message_type body filename w n seq code sent got lt =
      let new : leb seq k.recv_seq ≡ false = ground arith in rw (sent, got, new) refl

module _ {O : Type 0} ⦃box : Box O⦄ where
  -- What the client sends in a call, as the result and the world behind it.
  abbrev pub sending : ClientV2 → Message O → World → Result ℕ × World
  sending k msg w = send_message_frame k.cipher (some msg) (next_seq k.send_seq) k.max_frame_size w

  -- The server's world when it has received the frame.
  abbrev pub receiving : {D : Type 0} → Message O → ServerV2 O D → Cipher → World → World
  receiving blank s c v = (receive_message_frame blank c s.v.max_frame_size v).1

-- The server's reply to a frame, as the result and the world behind it.
module _ {O D : Type 0} where
  abbrev pub replying :
      ServerV2 O D → Cipher → ResponseCode → Session O D → World → Result (Unit {0}) × World
  replying s c code st v = send_response_frame c code (next_seq st.send_seq) s.v.max_frame_size v

module _ {O D : Type 0} ⦃box : Box O⦄ (blank : Message O) (no_auth : D) where
  -- One exchange. A client and a server have the same sound cipher, and neither's cap is above the
  -- other's as a uint32. The client's message fits the widths of the envelope and is sent; its bytes
  -- come in at the server, in any pieces. The message is new there, its user is authorized, its type
  -- has a handler, and the server's reply is sent; its bytes come in at the client, in any pieces, and
  -- the reply is new there. Then the server's round goes on, and has called the handler with the
  -- received message and the user's data; the client's call returns the handler's code, as a uint32,
  -- and each side has taken the other's sequence number.
  pub send-round :
      (s : ServerV2 O D) (k : ClientV2)
      → IsSound k.cipher
      → le_int k.max_frame_size (pos (to_uint32 s.v.max_frame_size)) ≡ true
      → le_int s.v.max_frame_size (pos (to_uint32 k.max_frame_size)) ≡ true
      → (message_type : Mt) (body filename rest more : Bytes) (n : ℕ) (auth : D)
        (handler : Handler O D) (st : Session O D) (w v : World)
      → let msg = message_of {O = O} k message_type body filename in
        let code = handler (received msg) auth in
        let v1 = receiving blank s k.cipher v in
        let w1 = (sending k msg w).1 in
        Fits (fields_of msg (next_seq k.send_seq))
        → (sending k msg w).0 ≡ ok n
        → Delivers w w1 v rest
        → st.recv_seq < next_seq k.send_seq
        → authorize no_auth s.auth_fn (received msg) ≡ some auth
        → find_handler s (received msg).type ≡ some handler
        → (replying s k.cipher code st v1).0 ≡ ok tt
        → Delivers v1 (replying s k.cipher code st v1).1 w1 more
        → k.recv_seq < next_seq st.send_seq
        → (round blank no_auth s k.cipher st v ≡ (
          go_on,
          answered (next_seq k.send_seq) code (noted (next_seq k.send_seq) (received msg) auth st),
          (replying s k.cipher code st v1).1,
        ))
          × ((send box k message_type body filename w).0 ≡ ok (pos (to_uint32 code)))
          × ((send box k message_type body filename w).1
              ≡ record k { send_seq = next_seq k.send_seq; recv_seq = next_seq st.send_seq })
  unfolding round
  send-round s k sound up down message_type body filename rest more n auth handler st w v fits sent
        there lt a f replied here lt' =
      let msg = message_of {O = O} k message_type body filename in
      let code = handler (received msg) auth in
      let v1 = receiving blank s k.cipher v in
      let w1 = (sending k msg w).1 in
      let (got, _) =
        receive_message_frame-send_message_frame k.cipher sound k.max_frame_size s.v.max_frame_size
          up msg blank (next_seq k.send_seq) n rest w v fits sent there in
      let (back, _) =
        receive_response_frame-send_response_frame k.cipher sound s.v.max_frame_size
          k.max_frame_size down code (next_seq st.send_seq) more v1 w1 (omega arith) replied here in
      let e =
        send_answered box k message_type body filename w n (next_seq st.send_seq)
          (pos (to_uint32 code)) sent back lt' in
      (
        rw got (
            handle_frame_handled no_auth s k.cipher (received msg) (next_seq k.send_seq) auth
              handler st v1 lt a f),
        ap (λ q. q.0) e,
        ap (λ q. q.1) e,
      )
