-- ===== src/Envelope/Laws.antt =====
-- Round trips and rejections of the envelope.
use atxp.Common.{
  ℕ, ◌<◌, ◌^◌, ◌≡◌, refl, sym, subst, ap, ◌∙◌, Option, none, some, [], ◌∷◌, ◌++◌, All, arith,
  append-nil,
}
use atxp.Common.Int.{pos, to_uint32, to_uint32-lt}
use atxp.Errors.{ok, err, sentinel, err_invalid_envelope, ◌>>=◌}
use atxp.Wire.{Bytes, IsByte}
use atxp.Message.{Box, Message, ResponseCode}
use atxp.Envelope.{
  Fields, finish, payload_of, assign, serialize_v2, deserialize_v2, serialize_response_v2,
  deserialize_response_v2,
}
use atxp.Envelope.Spec.{
  take_message, take_response, deserialize_v2-take, deserialize_response_v2-take,
}
use atxp.Envelope.Layout.{
  layout, layout_response, Fits, fields_of, serialize_v2-layout, serialize_response_v2-layout,
  take_message-layout, take_message-append, take_response-layout_response, take_response-layout,
}
use atxp.Envelope.Canonical.{take_message_inv, take_response_inv}

module _ {S A B : Type 0} where
  finish_inv :
      (f : A → B) (x : Option (A × S)) (b : B)
      → finish f x ≡ ok b
      → (a : A) × (s : S) × (x ≡ some (a, s)) × (f a ≡ b)
  finish_inv f none b h = cc
  finish_inv f (some (a, s)) b h = (a, s, refl, cc)

module _ {O : Type 0} ⦃box : Box O⦄ where
  -- What the receiver sees of a message: the type as a uint32, present data, no password.
  abbrev pub received : Message O → Message O
  received m = record {
    type = pos (to_uint32 m.type);
    body = box.new_some (payload_of m);
    auth = record { username = m.auth.username; password = [] };
    filename = m.filename;
  }

  pub deserialize_v2-layout :
      (f : Fields) (old : Message O)
      → Fits f
      → deserialize_v2 (layout f) (some old) ≡ ok (assign old f)
  deserialize_v2-layout f old h =
      deserialize_v2-take (layout f) old ∙ ap (finish (assign old)) (take_message-layout f h)

  -- A message that was read has the fields that were read.
  fields_of-assign : (old : Message O) (f : Fields) → Fits f → fields_of (assign old f).0 f.seq ≡ f
  fields_of-assign old f h =
      ground (arith, box.is_empty-new_some f.payload, box.get-new_some f.payload)

  -- DeserializeV2 after SerializeV2, for every message whose parts are shorter than 2^32 bytes and
  -- every uint64 sequence number: the receiver gets the message as `received` describes it and the
  -- sequence number, whatever the message that it writes into held before.
  pub deserialize_v2-serialize_v2 :
      (m old : Message O) (seq : ℕ)
      → Fits (fields_of m seq)
      → (serialize_v2 (some m) seq >>= λ bs. deserialize_v2 bs (some old)) ≡ ok (received m, seq)
  deserialize_v2-serialize_v2 m old seq h =
      rw (serialize_v2-layout m seq) (deserialize_v2-layout (fields_of m seq) old h)

  -- Whatever plaintext DeserializeV2 accepts is the one that SerializeV2 writes for the message
  -- and the sequence number that it returns.
  pub serialize_v2-deserialize_v2 :
      (bs : Bytes) (old m : Message O) (seq : ℕ)
      → All IsByte bs
      → deserialize_v2 bs (some old) ≡ ok (m, seq)
      → serialize_v2 (some m) seq ≡ ok bs
  serialize_v2-deserialize_v2 bs old m seq w h =
      let (f, rest, e, a) =
        finish_inv (assign old) (take_message bs) (m, seq) (sym (deserialize_v2-take bs old) ∙ h) in
      let (p, fits) = take_message_inv bs f rest w e in
      subst (λ q. serialize_v2 (some q.0) q.1 ≡ ok bs) a
        (serialize_v2-layout (assign old f).0 f.seq
          ∙ ap ok (ap layout (fields_of-assign old f fits) ∙ sym p))

  -- A plaintext that DeserializeV2 accepts is refused with any bytes added behind it.
  pub deserialize_v2-append :
      (bs : Bytes) (old m : Message O) (seq x : ℕ) (more : Bytes)
      → All IsByte bs
      → deserialize_v2 bs (some old) ≡ ok (m, seq)
      → deserialize_v2 (bs ++ x ∷ more) (some old) ≡ err (sentinel err_invalid_envelope)
  deserialize_v2-append bs old m seq x more w h =
      let (f, rest, e, a) =
        finish_inv (assign old) (take_message bs) (m, seq) (sym (deserialize_v2-take bs old) ∙ h) in
      let (p, fits) = take_message_inv bs f rest w e in
      rw (deserialize_v2-take, p, take_message-append f x more fits) refl

  -- A plaintext is never both a message and a response: one that DeserializeV2 accepts is refused
  -- by deserializeResponseV2.
  deserialize_response_v2-message :
      (bs : Bytes) (old m : Message O) (seq : ℕ)
      → All IsByte bs
      → deserialize_v2 bs (some old) ≡ ok (m, seq)
      → deserialize_response_v2 bs ≡ err (sentinel err_invalid_envelope)
  deserialize_response_v2-message bs old m seq w h =
      let (f, rest, e, a) =
        finish_inv (assign old) (take_message bs) (m, seq) (sym (deserialize_v2-take bs old) ∙ h) in
      let (p, fits) = take_message_inv bs f rest w e in
      deserialize_response_v2-take bs
      ∙ ap (finish (λ q. q)) {y = none}
          (ap take_response (p ∙ sym (append-nil (layout f))) ∙ take_response-layout f [])

-- deserializeResponseV2 after serializeResponseV2, for every code and every uint64 sequence number:
-- the code comes back as the uint32 that was sent, and the sequence number as it was.
pub deserialize_response_v2-serialize_response_v2 :
    (code : ResponseCode) (seq : ℕ)
    → seq < 2 ^ 64
    → deserialize_response_v2 (serialize_response_v2 code seq) ≡ ok (pos (to_uint32 code), seq)
deserialize_response_v2-serialize_response_v2 code seq h =
    rw (serialize_response_v2-layout code seq) (
      deserialize_response_v2-take (layout_response (to_uint32 code) seq)
      ∙ ap (finish (λ q. q))
          (take_response-layout_response (to_uint32 code) seq (to_uint32-lt code) h))

-- Whatever plaintext deserializeResponseV2 accepts is the one that serializeResponseV2 writes for the
-- code and the sequence number that it returns, which fit their widths.
pub serialize_response_v2-deserialize_response_v2 :
    (bs : Bytes) (code : ResponseCode) (seq : ℕ)
    → All IsByte bs
    → deserialize_response_v2 bs ≡ ok (code, seq)
    → (serialize_response_v2 code seq ≡ bs) × (pos (to_uint32 code) ≡ code) × (seq < 2 ^ 64)
serialize_response_v2-deserialize_response_v2 bs code seq w h =
    let (q, rest, e, a) =
      finish_inv (λ q. q) (take_response bs) (code, seq)
        (sym (deserialize_response_v2-take bs) ∙ h) in
    let (c, e', p, l, l') = take_response_inv bs code seq rest w (e ∙ ap (λ t. some (t, rest)) a) in
    (rw (serialize_response_v2-layout code seq) (ground (arith)), ground arith, l')
