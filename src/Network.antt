-- ===== src/Network.antt =====
-- docs/protocol.md, "Sequence numbers": a network between a client and a server of version 2 that may
-- drop, repeat, reorder and reflect frames, cut them and add bytes of its own, but not forge a frame.
pub mod Delivery
pub mod Replies
pub mod Session
use atxp.Common.{
  ℕ, ◌≡◌, ◌⊎◌, inl, inr, refl, ap, sym, ◌∙◌, subst, some, List, [], ◌<◌, ◌^◌, ◌++◌, append_assoc,
  append-nil, All, map,
}
use atxp.Common.Int.{ℤ, pos, to_uint32}
use atxp.Common.Subsequence.{IsIn, IsIn-map, All-IsIn}
use atxp.Errors.{Result, ok, err, sentinel, err_invalid_envelope, ◌>>=◌}
use atxp.Wire.{Bytes}
use atxp.Conn.{World, lift}
use atxp.Conn.Stream.{stream}
use atxp.Conn.Trace.{bind_inv}
use atxp.Conn.Consumes.{arriving, behind_failure, arriving-stream, Taken}
use atxp.Crypto.{Cipher}
use atxp.Message.{Box, Message, ResponseCode}
use atxp.Envelope.{
  finish, assign, serialize_v2, deserialize_v2, serialize_response_v2, deserialize_response_v2,
}
use atxp.Envelope.Spec.{
  take_message, take_response, deserialize_v2-take, deserialize_response_v2-take,
}
use atxp.Envelope.Layout.{
  layout, Fits, fields_of, serialize_v2-layout, serialize_response_v2-layout,
  take_message-layout_response, take_response-layout,
}
use atxp.Envelope.Laws.{
  received, deserialize_v2-serialize_v2, deserialize_response_v2-serialize_response_v2,
}
use atxp.Frame.{read_frame, receive_message_frame, receive_response_frame}
use atxp.Frame.Read.{read_frame_inv}

module _ {O : Type 0} ⦃box : Box O⦄ where
  -- The plaintext is one that the client sealed for one of its messages, or the server for one of
  -- its responses. Both seal under one key.
  abbrev pub WasSealed : List (ℕ × Message O) → List (ℕ × ResponseCode) → Bytes → Type 0
  WasSealed sent replies plaintext =
      ((p : ℕ × Message O) × IsIn p sent × (serialize_v2 (some p.1) p.0 ≡ ok plaintext))
      ⊎ ((r : ℕ × ResponseCode) × IsIn r replies × (plaintext ≡ serialize_response_v2 r.1 r.0))

  -- Whatever piece of the bytes opens was sealed by one of the two.
  pub record Unforged (c : Cipher) (sent : List (ℕ × Message O)) (replies : List (ℕ × ResponseCode))
      (bs : Bytes) : Type 0 where
    pub opens :
        (front sealed rest plaintext : Bytes)
        → bs ≡ front ++ (sealed ++ rest)
        → c.open_sealed sealed ≡ ok plaintext
        → WasSealed sent replies plaintext

  pub Unforged-rest :
      (c : Cipher) (sent : List (ℕ × Message O)) (replies : List (ℕ × ResponseCode))
      (front bs : Bytes)
      → Unforged c sent replies (front ++ bs)
      → Unforged c sent replies bs
  Unforged-rest c sent replies front bs u = record {
    opens = λ more sealed rest plaintext e o.
        u.opens (front ++ more) sealed rest plaintext
          (ap (λ t. front ++ t) e ∙ sym (append_assoc front more (sealed ++ rest))) o;
  }

  -- A message with its sequence number, as the server sees it.
  abbrev pub seen : ℕ × Message O → ℕ × Message O
  seen (seq, m) = (seq, received m)

  deserialize_v2-sent :
      (p : ℕ × Message O) (blank m : Message O) (seq : ℕ) (plaintext : Bytes)
      → Fits (fields_of p.1 p.0)
      → serialize_v2 (some p.1) p.0 ≡ ok plaintext
      → deserialize_v2 plaintext (some blank) ≡ ok (m, seq)
      → seen p ≡ (seq, m)
  deserialize_v2-sent p blank m seq plaintext fits sealed h =
      let back = deserialize_v2-serialize_v2 p.1 blank p.0 fits in
      let same : ◌≡◌ {A = Result (Message O × ℕ)} (ok (received p.1, p.0)) (ok (m, seq)) =
        sym back ∙ ap (λ r. r >>= λ bs. deserialize_v2 bs (some blank)) sealed ∙ h in
      cc

  -- A response is no message.
  deserialize_v2_reflected :
      (blank : Message O) (code : ResponseCode) (seq : ℕ)
      → deserialize_v2 (serialize_response_v2 code seq) (some blank)
        ≡ err (sentinel err_invalid_envelope)
  deserialize_v2_reflected blank code seq =
      deserialize_v2-take (serialize_response_v2 code seq) blank
      ∙ ap (λ bs. finish (assign blank) (take_message bs)) (serialize_response_v2-layout code seq)
      ∙ ap (finish (assign blank)) (take_message-layout_response (to_uint32 code) seq)

  -- A message is no response.
  deserialize_response_v2_reflected :
      (m : Message O) (seq : ℕ) (plaintext : Bytes)
      → serialize_v2 (some m) seq ≡ ok plaintext
      → deserialize_response_v2 plaintext ≡ err (sentinel err_invalid_envelope)
  deserialize_response_v2_reflected m seq plaintext sealed =
      let shape : plaintext ≡ layout (fields_of m seq) =
        let same : ok plaintext ≡ ok (layout (fields_of m seq)) =
          sym sealed ∙ serialize_v2-layout m seq in
        cc in
      deserialize_response_v2-take plaintext
      ∙ ap (λ bs. finish (λ q. q) (take_response bs))
          (shape ∙ sym (append-nil (layout (fields_of m seq))))
      ∙ ap (finish (λ q. q)) (take_response-layout (fields_of m seq) [])

  module _ (c : Cipher) (sent : List (ℕ × Message O)) (replies : List (ℕ × ResponseCode))
      (cap : ℤ) where
    -- What `readFrame` returns was sealed by one of the two.
    read_frame-WasSealed :
        (w : World) (plaintext : Bytes)
        → Unforged c sent replies (arriving w.conn.incoming)
        → (read_frame c cap w).0 ≡ ok plaintext
        → WasSealed sent replies plaintext
    read_frame-WasSealed w plaintext u h =
        let (len_buf, sealed, p, s1, s2, ge, le, o) = read_frame_inv c cap w plaintext h in
        let rest = stream (read_frame c cap w).1.conn.incoming in
        let later = behind_failure w.conn.incoming in
        u.opens len_buf sealed (rest ++ later) plaintext
          (arriving-stream w.conn.incoming
            ∙ ap (λ t. t ++ later) p
            ∙ append_assoc len_buf (sealed ++ rest) later
            ∙ ap (λ t. len_buf ++ t) (append_assoc sealed rest later))
          o

    -- A message that the server receives is one that the client sent, as the server sees it; a
    -- response that is sent back to the server is refused.
    pub receive_message_frame-sent :
        (blank m : Message O) (seq : ℕ) (w : World)
        → All (λ p. Fits (fields_of p.1 p.0)) sent
        → Unforged c sent replies (arriving w.conn.incoming)
        → (receive_message_frame blank c cap w).0 ≡ ok (m, seq)
        → IsIn (seq, m) (map seen sent)
    unfolding receive_message_frame
    receive_message_frame-sent blank m seq w fits u h =
        let decode = λ (p : Bytes). lift (deserialize_v2 p (some blank)) in
        let (plaintext, e, h') = bind_inv (read_frame c cap) decode w h in
        elim (read_frame-WasSealed w plaintext u e) [
          | inl (p, i, sealed) ↦
              let fit = All-IsIn (λ p. Fits (fields_of p.1 p.0)) p sent fits i in
              subst (λ q. IsIn q (map seen sent))
                (deserialize_v2-sent p blank m seq plaintext fit sealed h') (IsIn-map seen p sent i)
          | inr (r, i, sealed) ↦
              let refused = deserialize_v2_reflected blank r.1 r.0 in
              let same = ap (λ bs. deserialize_v2 bs (some blank)) sealed in
              cc (sym h' ∙ same ∙ refused)
        ]

    -- A response that the client receives is one that the server sent, with its code as a uint32; a
    -- message that is sent back to the client is refused.
    pub receive_response_frame-sent :
        (code : ResponseCode) (seq : ℕ) (w : World)
        → All (λ r. r.0 < 2 ^ 64) replies
        → Unforged c sent replies (arriving w.conn.incoming)
        → (receive_response_frame c cap w).0 ≡ ok (code, seq)
        → (r : ℕ × ResponseCode) × IsIn r replies × (r.0 ≡ seq) × (pos (to_uint32 r.1) ≡ code)
    unfolding receive_response_frame
    receive_response_frame-sent code seq w fits u h =
        let decode = λ (p : Bytes). lift (deserialize_response_v2 p) in
        let (plaintext, e, h') = bind_inv (read_frame c cap) decode w h in
        elim (read_frame-WasSealed w plaintext u e) [
          | inl (p, i, sealed) ↦
              cc (sym h' ∙ deserialize_response_v2_reflected p.1 p.0 plaintext sealed)
          | inr (r, i, sealed) ↦
              let back =
                deserialize_response_v2-serialize_response_v2 r.1 r.0
                  (All-IsIn (λ r. r.0 < 2 ^ 64) r replies fits i) in
              let same = sym back ∙ ap deserialize_response_v2 (sym sealed) ∙ h' in
              (r, i, cc same, cc same)
        ]
