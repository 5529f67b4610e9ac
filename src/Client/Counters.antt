-- ===== src/Client/Counters.antt =====
-- The counters of the client over any outcome of its calls.
use atxp.Common.{ℕ, ◌≤◌, ◌<◌, ◌≡◌, arith}
use atxp.Errors.{Result, ok, err, sentinel, err_replay}
use atxp.Wire.{Bytes}
use atxp.Conn.{World}
use atxp.Message.{Box, Mt, ResponseCode}
use atxp.Frame.{receive_response_frame}
use atxp.Client.{ClientV2, Outcome, next_seq, accept_reply, await_reply, send}

-- The receive counter goes up when a response is accepted, and stays otherwise.
abbrev pub ReplyCounted : ℕ → ℕ → Result ResponseCode → Type 0
ReplyCounted before after (ok code) = before < after
ReplyCounted before after (err e) = after ≡ before

-- The client after a call: the send counter as given, the receive counter by the result, all else
-- as it was.
pub record Counted (c : ClientV2) (seq : ℕ) (o : Outcome ResponseCode) : Type 0 where
  pub cipher : o.1.cipher ≡ c.cipher
  pub username : o.1.username ≡ c.username
  pub max_frame_size : o.1.max_frame_size ≡ c.max_frame_size
  pub send_seq : o.1.send_seq ≡ seq
  pub recv_seq : ReplyCounted c.recv_seq o.1.recv_seq o.0

accept_reply-Counted :
    (r : Result (ResponseCode × ℕ)) (c : ClientV2) (w : World)
    → Counted c c.send_seq (accept_reply r c w)
unfolding accept_reply
accept_reply-Counted (err e) c w = ground arith
accept_reply-Counted (ok (code, seq)) c w = ground arith

await_reply-Counted :
    (r : Result ℕ) (c : ClientV2) (w : World) → Counted c c.send_seq (await_reply r c w)
unfolding await_reply
await_reply-Counted (err e) c w = ground arith
await_reply-Counted (ok n) c w =
    accept_reply-Counted (receive_response_frame c.cipher c.max_frame_size w).0 c
      (receive_response_frame c.cipher c.max_frame_size w).1

-- The checks on a response call nothing.
pub accept_reply-world :
    (r : Result (ResponseCode × ℕ)) (c : ClientV2) (w : World) → (accept_reply r c w).2 ≡ w
unfolding accept_reply
accept_reply-world r c w = ground arith

-- A response whose sequence number is not above the last accepted one is a replay: `ErrReplay`,
-- and the client is left as it was.
pub accept_reply_replay :
    (code : ResponseCode) (seq : ℕ) (c : ClientV2) (w : World)
    → seq ≤ c.recv_seq
    → accept_reply (ok (code, seq)) c w ≡ (err (sentinel err_replay), c, w)
unfolding accept_reply
accept_reply_replay code seq c w h = ground arith

module _ {O : Type 0} (box : Box O) where
  -- Whatever the connection and the peer do, one `send` moves the send counter by one (modulo 2^64),
  -- raises the receive counter if it returns a code and leaves it if it returns an error, and leaves
  -- the cipher, the username and the cap.
  pub send-Counted :
      (c : ClientV2) (message_type : Mt) (body filename : Bytes) (w : World)
      → Counted c (next_seq c.send_seq) (send box c message_type body filename w)
  unfolding send
  send-Counted c message_type body filename w =
      let c' = record c { send_seq = next_seq c.send_seq } in
      let counted = await_reply-Counted _ c' _ in
      record {
        cipher = counted.cipher;
        username = counted.username;
        max_frame_size = counted.max_frame_size;
        send_seq = counted.send_seq;
        recv_seq = counted.recv_seq;
      }
