-- ===== src/Frame/Genuine.antt =====
-- Frames under the GCM cipher: a message that is received was sealed under the key of the connection.
use atxp.Common.{ℕ, ◌+◌, ◌≡◌, ap, ◌∙◌, some, ◌++◌, length, length-append, arith}
use atxp.Common.Int.{ℤ}
use atxp.Errors.{ok}
use atxp.Wire.{Bytes, uint32}
use atxp.Conn.{World, lift}
use atxp.Conn.Stream.{stream}
use atxp.Conn.Trace.{bind_inv, bind_ok}
use atxp.Crypto.{Crypto, nonce_size, gcm_tag_size, gcm_cipher, open_gcm}
use atxp.Crypto.Laws.{open_gcm-genuine}
use atxp.Message.{Box, Message}
use atxp.Envelope.{deserialize_v2}
use atxp.Frame.{read_frame, receive_message_frame}
use atxp.Frame.Read.{read_frame_inv}

module _ (cr : Crypto) where
  gcm_open_sealed :
      (a : cr.Aead) (sealed plaintext : Bytes)
      → (gcm_cipher cr a).open_sealed sealed ≡ ok plaintext
      → open_gcm cr a sealed ≡ ok plaintext
  unfolding gcm_cipher
  gcm_open_sealed a sealed plaintext h = h

module _ (cr : Crypto) {O : Type 0} ⦃box : Box O⦄ where
  -- When a message is received under the GCM cipher of a key, whatever the stream is: it began with
  -- four length bytes, a nonce of 12 bytes, and what GCM seals of an envelope under that nonce and key;
  -- the envelope is the one that decodes to the message and its sequence number, the length is that of
  -- the nonce and the ciphertext, and what follows is left.
  pub receive_message_frame-genuine :
      (a : cr.Aead) (blank m : Message O) (seq : ℕ) (cap : ℤ) (w : World)
      → (receive_message_frame blank (gcm_cipher cr a) cap w).0 ≡ ok (m, seq)
      → (len_buf : Bytes) × (nonce : Bytes) × (envelope : Bytes) × (stream w.conn.incoming
          ≡ len_buf
            ++ ((nonce ++ cr.gcm_seal a nonce envelope)
                ++ stream (receive_message_frame blank (gcm_cipher cr a) cap w).1.conn.incoming))
        × (length len_buf ≡ 4)
        × (length nonce ≡ nonce_size)
        × (uint32 len_buf ≡ nonce_size + (length envelope + gcm_tag_size))
        × (deserialize_v2 envelope (some blank) ≡ ok (m, seq))
  unfolding receive_message_frame
  receive_message_frame-genuine a blank m seq cap w h =
      let c = gcm_cipher cr a in
      let decode = λ (p : Bytes). lift (deserialize_v2 p (some blank)) in
      let (envelope, e, h') = bind_inv (read_frame c cap) decode w h in
      let (len_buf, sealed, p, s1, s2, ge, le, o) = read_frame_inv c cap w envelope e in
      let (nonce, size, shape) =
        open_gcm-genuine cr a sealed envelope (gcm_open_sealed cr a sealed envelope o) in
      (
        len_buf,
        nonce,
        envelope,
        rw (bind_ok (read_frame c cap) decode w e)
            (p ∙ ap (λ t. len_buf ++ (t ++ stream (read_frame c cap w).1.conn.incoming)) shape),
        s1,
        size,
        omega (
          arith,
          s2,
          ap length shape,
          length-append nonce (cr.gcm_seal a nonce envelope),
          cr.length-gcm_seal a nonce envelope,
        ),
        h',
      )
