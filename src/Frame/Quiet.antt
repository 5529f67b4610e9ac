-- ===== src/Frame/Quiet.antt =====
-- Writing a frame does not read, and a frame that was received has shortened the stream.
use atxp.Common.{ℕ, ◌+◌, ◌≤◌, ◌≡◌, refl, ap, some, length, ◌++◌, arith, length-append}
use atxp.Common.Int.{ℤ}
use atxp.Errors.{Result, ok, err}
use atxp.Wire.{Bytes}
use atxp.Conn.{World, continue, wrapped, arm_write, write_bytes, lift}
use atxp.Conn.Trace.{bind_inv, bind_ok}
use atxp.Conn.Stream.{stream}
use atxp.Crypto.{Cipher}
use atxp.Message.{Box, Message, ResponseCode}
use atxp.Envelope.{deserialize_v2, serialize_response_v2}
use atxp.Frame.{write_frame, write_sealed, read_frame, send_response_frame, receive_message_frame}
use atxp.Frame.Read.{read_frame_inv}

write_sealed-incoming :
    (sealed : Bytes) (cap : ℤ) (w : World)
    → (write_sealed sealed cap w).1.conn.incoming ≡ w.conn.incoming
unfolding write_sealed arm_write write_bytes
write_sealed-incoming sealed cap w = ground arith

pub write_frame-incoming :
    (c : Cipher) (plaintext : Bytes) (cap : ℤ) (w : World)
    → (write_frame c plaintext cap w).1.conn.incoming ≡ w.conn.incoming
unfolding write_frame
write_frame-incoming c plaintext cap w = by_seal (c.seal plaintext w.entropy).0
  where
    w1 : World
    w1 = record w { entropy = (c.seal plaintext w.entropy).1 }

    by_seal :
        (r : Result Bytes)
        → (continue
            (wrapped "atxp.writeFrame" r)
            (λ sealed. write_sealed sealed cap)
            w1).1.conn.incoming
          ≡ w.conn.incoming
    by_seal (ok sealed) = write_sealed-incoming sealed cap w1
    by_seal (err e) = refl

pub send_response_frame-incoming :
    (c : Cipher) (code : ResponseCode) (seq : ℕ) (cap : ℤ) (w : World)
    → (send_response_frame c code seq cap w).1.conn.incoming ≡ w.conn.incoming
unfolding send_response_frame
send_response_frame-incoming c code seq cap w =
    ground (arith, write_frame-incoming c (serialize_response_v2 code seq) cap w)

module _ {O : Type 0} ⦃box : Box O⦄ where
  -- A received frame took 32 bytes of the stream at least.
  pub receive_message_frame_shorter :
      (blank : Message O) (c : Cipher) (cap : ℤ) (w : World) (q : Message O × ℕ)
      → (receive_message_frame blank c cap w).0 ≡ ok q
      → length (stream (receive_message_frame blank c cap w).1.conn.incoming) + 32
        ≤ length (stream w.conn.incoming)
  unfolding receive_message_frame
  receive_message_frame_shorter blank c cap w q h =
      let decode = λ (p : Bytes). lift (deserialize_v2 p (some blank)) in
      let (plaintext, e, h') = bind_inv (read_frame c cap) decode w h in
      let (len_buf, sealed, p, s1, s2, ge, le, o) = read_frame_inv c cap w plaintext e in
      let after = (read_frame c cap w).1.conn.incoming in
      rw (bind_ok (read_frame c cap) decode w e) (
        omega (
          arith,
          ap length p,
          length-append len_buf (sealed ++ stream after),
          length-append sealed (stream after),
        ))
