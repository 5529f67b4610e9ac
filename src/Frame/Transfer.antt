-- ===== src/Frame/Transfer.antt =====
-- A frame that one side wrote arrives at the other, whatever the reads that cut the stream.
use atxp.Common.{
  ℕ, ◌≡◌, ◌<◌, ◌^◌, refl, subst, ap, sym, ◌∙◌, true, some, List, [], ◌∷◌, ◌++◌, length, drop, arith,
  append-nil, drop-append,
}
use atxp.Common.Int.{ℤ, pos, le_int, le_int_trans, to_uint32}
use atxp.Errors.{ok}
use atxp.Wire.{Bytes}
use atxp.Conn.{World, Call, set_read_deadline, set_write_deadline, read, write, close, pure}
use atxp.Conn.Trace.{bind_inv}
use atxp.Conn.Stream.{stream}
use atxp.Crypto.{Cipher}
use atxp.Crypto.Laws.{IsSound}
use atxp.Message.{Box, Message, ResponseCode}
use atxp.Envelope.{deserialize_v2, serialize_response_v2, deserialize_response_v2}
use atxp.Envelope.Layout.{Fits, layout, fields_of, serialize_v2-layout}
use atxp.Envelope.Laws.{
  received, deserialize_v2-layout, deserialize_response_v2-serialize_response_v2,
}
use atxp.Frame.{
  write_frame, read_frame, send_message_frame, receive_message_frame, send_response_frame,
  receive_response_frame,
}
use atxp.Frame.Read.{DeadlineWorks, read_frame-frame_of}
use atxp.Frame.Write.{write_frame_lem, write_frame_inv}

-- The bytes that calls put on the wire.
abbrev pub written : List Call → Bytes
written [] = []
written (write bs ∷ cs) = bs ++ written cs
written (set_read_deadline d ∷ cs) = written cs
written (set_write_deadline d ∷ cs) = written cs
written (read n ∷ cs) = written cs
written (close ∷ cs) = written cs

-- The bytes that went out on the connection of `w` up to `w'`.
abbrev pub sent_between : World → World → Bytes
sent_between w w' = written (drop (length w.conn.trace) w'.conn.trace)

-- The receiver's stream begins with what the sender put out, and its next deadline works.
pub record Delivers (w w' v : World) (rest : Bytes) : Type 0 where
  pub arrives : stream v.conn.incoming ≡ sent_between w w' ++ rest
  pub works : DeadlineWorks v

module _ {O : Type 0} ⦃box : Box O⦄ where
  -- A message that is not nil serializes, so all that can fail is the write of its envelope.
  pub send_message_frame-layout :
      (m : Message O) (seq : ℕ) (cap : ℤ) (c : Cipher) (w : World)
      → send_message_frame c (some m) seq cap w ≡ write_frame c (layout (fields_of m seq)) cap w
  unfolding send_message_frame
  send_message_frame-layout m seq cap c w = rw (serialize_v2-layout m seq) refl

  receive_message_frame-read :
      (blank : Message O) (c : Cipher) (cap : ℤ) (v : World) {plaintext rest : Bytes}
      {q : Message O × ℕ}
      → (read_frame c cap v).0 ≡ ok plaintext
      → stream (read_frame c cap v).1.conn.incoming ≡ rest
      → deserialize_v2 plaintext (some blank) ≡ ok q
      → ((receive_message_frame blank c cap v).0 ≡ ok q)
        × (stream (receive_message_frame blank c cap v).1.conn.incoming ≡ rest)
  unfolding receive_message_frame
  receive_message_frame-read blank c cap v r left e = rw (r, e) (refl, left)

receive_response_frame-read :
    (c : Cipher) (cap : ℤ) (v : World) {plaintext rest : Bytes} {q : ResponseCode × ℕ}
    → (read_frame c cap v).0 ≡ ok plaintext
    → stream (read_frame c cap v).1.conn.incoming ≡ rest
    → deserialize_response_v2 plaintext ≡ ok q
    → ((receive_response_frame c cap v).0 ≡ ok q)
      × (stream (receive_response_frame c cap v).1.conn.incoming ≡ rest)
unfolding receive_response_frame
receive_response_frame-read c cap v r left e = rw (r, e) (refl, left)

send_response_frame-write :
    (code : ResponseCode) (seq : ℕ) (cap : ℤ) (c : Cipher) (w : World)
    → (send_response_frame c code seq cap w).0 ≡ ok tt
    → (n : ℕ) × ((write_frame c (serialize_response_v2 code seq) cap w).0 ≡ ok n)
      × ((send_response_frame c code seq cap w).1
          ≡ (write_frame c (serialize_response_v2 code seq) cap w).1)
unfolding send_response_frame
send_response_frame-write code seq cap c w h =
    let (n, e, h') =
      bind_inv (write_frame c (serialize_response_v2 code seq) cap) (λ _. pure tt) w h in
    (n, e, rw e)

module _ (c : Cipher) (sound : IsSound c) (cap cap' : ℤ)
    (caps : le_int cap (pos (to_uint32 cap')) ≡ true) where
  -- `readFrame` after `writeFrame`
  pub read_frame-write_frame :
      (plaintext rest : Bytes) (n : ℕ) (w v : World)
      → (write_frame c plaintext cap w).0 ≡ ok n
      → Delivers w (write_frame c plaintext cap w).1 v rest
      → ((read_frame c cap' v).0 ≡ ok plaintext)
        × (stream (read_frame c cap' v).1.conn.incoming ≡ rest)
  read_frame-write_frame plaintext rest n w v h d =
      let (sealed, e', s, fits, works) = write_frame_inv c cap plaintext w n h in
      let (r, t, i) = write_frame_lem c cap plaintext sealed e' w s fits works in
      let (q, left) =
        read_frame-frame_of c cap' v sealed rest d.works
          (le_int_trans (length sealed) (to_uint32 cap') cap fits caps)
          (omega (arith, sound.length-seal plaintext sealed w.entropy e' s))
          (d.arrives ∙ rw (t, drop-append w.conn.trace, append-nil) refl) in
      (q ∙ sound.open_sealed-seal plaintext sealed w.entropy e' s, left)

  module _ {O : Type 0} ⦃box : Box O⦄ where
    -- A message frame that was sent without an error is received as the message, with its sequence
    -- number: under one sound cipher, for every message whose parts are shorter than 2^32 bytes,
    -- where the sender's cap is at most the receiver's as a uint32 and the receiver's call of
    -- SetReadDeadline succeeds, however the stream is cut into reads; what follows the frame is left
    -- in the stream.
    pub receive_message_frame-send_message_frame :
        (m blank : Message O) (seq n : ℕ) (rest : Bytes) (w v : World)
        → Fits (fields_of m seq)
        → (send_message_frame c (some m) seq cap w).0 ≡ ok n
        → Delivers w (send_message_frame c (some m) seq cap w).1 v rest
        → ((receive_message_frame blank c cap' v).0 ≡ ok (received m, seq))
          × (stream (receive_message_frame blank c cap' v).1.conn.incoming ≡ rest)
    receive_message_frame-send_message_frame m blank seq n rest w v fits h d =
        let plaintext = layout (fields_of m seq) in
        let same = send_message_frame-layout m seq cap c w in
        let (r, left) =
          read_frame-write_frame plaintext rest n w v (ap (λ q. q.0) (sym same) ∙ h)
            (subst (λ q. Delivers w q.1 v rest) same d) in
        receive_message_frame-read blank c cap' v r left
          (deserialize_v2-layout (fields_of m seq) blank fits)

  -- A response frame that was sent without an error is received as its code, as a uint32, with its
  -- sequence number: under one sound cipher, for a sequence number below 2^64, where the sender's
  -- cap is at most the receiver's as a uint32, however the stream is cut into reads; what follows
  -- the frame is left in the stream.
  pub receive_response_frame-send_response_frame :
      (code : ResponseCode) (seq : ℕ) (rest : Bytes) (w v : World)
      → seq < 2 ^ 64
      → (send_response_frame c code seq cap w).0 ≡ ok tt
      → Delivers w (send_response_frame c code seq cap w).1 v rest
      → ((receive_response_frame c cap' v).0 ≡ ok (pos (to_uint32 code), seq))
        × (stream (receive_response_frame c cap' v).1.conn.incoming ≡ rest)
  receive_response_frame-send_response_frame code seq rest w v lt h d =
      let plaintext = serialize_response_v2 code seq in
      let (n, h', same) = send_response_frame-write code seq cap c w h in
      let (r, left) =
        read_frame-write_frame plaintext rest n w v h' (subst (λ u. Delivers w u v rest) same d) in
      receive_response_frame-read c cap' v r left
        (deserialize_response_v2-serialize_response_v2 code seq lt)
