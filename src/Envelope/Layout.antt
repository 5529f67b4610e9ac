-- ===== src/Envelope/Layout.antt =====
-- The documented layout of an envelope, and that the abstract reader accepts exactly it.
use atxp.Common.{
  ℕ, ◌<◌, ◌^◌, ◌≡◌, refl, none, some, [], ◌∷◌, ◌++◌, length, arith, append_assoc, append-nil,
}
use atxp.Common.Int.{pos, to_uint32}
use atxp.Errors.{ok}
use atxp.Wire.{Bytes, append_uint32, append_uint64, append_field}
use atxp.Wire.Reader.{at_end}
use atxp.Wire.Words.{
  append_uint32_nil, append_uint64_nil, take_byte-cons, take_uint32-append_uint32,
  take_uint64-append_uint64,
}
use atxp.Wire.Fields.{append_field_nil, take_field-append_field}
use atxp.Message.{Box, Message, ResponseCode}
use atxp.Envelope.{
  Fields, kind_message, kind_response, serialize_v2, serialize_response_v2, payload_of,
}
use atxp.Envelope.Spec.{take_message, take_response}

-- docs/protocol.md: kind, seq, mtCode, and three length-prefixed fields.
unfoldable pub layout : Fields → Bytes
layout f =
    kind_message
    ∷ (append_uint64 [] f.seq
        ++ (append_uint32 [] f.code
            ++ (append_field [] f.payload
                ++ (append_field [] f.username ++ append_field [] f.filename))))

-- Every part fits its width.
pub record Fits (f : Fields) : Type 0 where
  pub seq : f.seq < 2 ^ 64
  pub code : f.code < 2 ^ 32
  pub payload : length f.payload < 2 ^ 32
  pub username : length f.username < 2 ^ 32
  pub filename : length f.filename < 2 ^ 32

-- docs/protocol.md: kind, seq, code.
unfoldable pub layout_response : ℕ → ℕ → Bytes
layout_response code seq = kind_response ∷ (append_uint64 [] seq ++ append_uint32 [] code)

module _ {O : Type 0} ⦃box : Box O⦄ where
  -- The fields of a message, the type as a uint32.
  abbrev pub fields_of : Message O → ℕ → Fields
  fields_of m seq = record {
    seq = seq;
    code = to_uint32 m.type;
    payload = payload_of m;
    username = m.auth.username;
    filename = m.filename;
  }

  pub serialize_v2-layout :
      (m : Message O) (seq : ℕ) → serialize_v2 (some m) seq ≡ ok (layout (fields_of m seq))
  unfolding serialize_v2 layout
  serialize_v2-layout m seq =
      let f = fields_of m seq in
      let b1 = kind_message ∷ append_uint64 [] f.seq in
      let b2 = b1 ++ append_uint32 [] f.code in
      let b3 = b2 ++ append_field [] f.payload in
      let b4 = b3 ++ append_field [] f.username in
      rw
        (
          append_uint64_nil (kind_message ∷ []) f.seq,
          append_uint32_nil b1 f.code,
          append_field_nil b2 f.payload,
          append_field_nil b3 f.username,
          append_field_nil b4 f.filename,
        )
        (simp append_assoc)

pub serialize_response_v2-layout :
    (code : ResponseCode) (seq : ℕ)
    → serialize_response_v2 code seq ≡ layout_response (to_uint32 code) seq
unfolding serialize_response_v2 layout_response
serialize_response_v2-layout code seq = rw (append_uint64_nil, append_uint32_nil)

-- The part of an envelope behind the kind, the sequence number and the code.
abbrev tail_of : Fields → Bytes
tail_of f = append_field [] f.payload ++ (append_field [] f.username ++ append_field [] f.filename)

pub take_message-layout : (f : Fields) → Fits f → take_message (layout f) ≡ some (f, [])
unfolding take_message layout at_end
take_message-layout f h = ground (
  arith,
  take_byte-cons kind_message (append_uint64 [] f.seq ++ (append_uint32 [] f.code ++ tail_of f)),
  take_uint64-append_uint64 f.seq (append_uint32 [] f.code ++ tail_of f),
  take_uint32-append_uint32 f.code (tail_of f),
  take_field-append_field f.payload (append_field [] f.username ++ append_field [] f.filename),
  take_field-append_field f.username (append_field [] f.filename),
  take_field-append_field f.filename [],
  append-nil (append_field [] f.filename),
)

layout-append :
    (f : Fields) (more : Bytes)
    → layout f ++ more
      ≡ kind_message
        ∷ (append_uint64 [] f.seq
            ++ (append_uint32 [] f.code
                ++ (append_field [] f.payload
                    ++ (append_field [] f.username ++ (append_field [] f.filename ++ more)))))
unfolding layout
layout-append f more = simp append_assoc

-- Bytes behind an envelope are refused.
pub take_message-append :
    (f : Fields) (x : ℕ) (more : Bytes) → Fits f → take_message (layout f ++ x ∷ more) ≡ none
unfolding take_message at_end
take_message-append f x more h =
    let tail = append_field [] f.username ++ (append_field [] f.filename ++ x ∷ more) in
    rw (layout-append f (x ∷ more)) (
      ground (
        arith,
        take_byte-cons kind_message (
            append_uint64 [] f.seq
            ++ (append_uint32 [] f.code ++ (append_field [] f.payload ++ tail))),
        take_uint64-append_uint64 f.seq
            (append_uint32 [] f.code ++ (append_field [] f.payload ++ tail)),
        take_uint32-append_uint32 f.code (append_field [] f.payload ++ tail),
        take_field-append_field f.payload tail,
        take_field-append_field f.username (append_field [] f.filename ++ x ∷ more),
        take_field-append_field f.filename (x ∷ more),
      ))

pub take_response-layout_response :
    (code seq : ℕ)
    → code < 2 ^ 32
    → seq < 2 ^ 64
    → take_response (layout_response code seq) ≡ some ((pos code, seq), [])
unfolding take_response layout_response at_end
take_response-layout_response code seq hc hs = ground (
  arith,
  take_byte-cons kind_response (append_uint64 [] seq ++ append_uint32 [] code),
  take_uint64-append_uint64 seq (append_uint32 [] code),
  take_uint32-append_uint32 code [],
  append-nil (append_uint32 [] code),
)

-- An envelope of one kind is never one of the other.
pub take_response-layout : (f : Fields) (more : Bytes) → take_response (layout f ++ more) ≡ none
unfolding take_response layout
take_response-layout f more = rw take_byte-cons refl

pub take_message-layout_response : (code seq : ℕ) → take_message (layout_response code seq) ≡ none
unfolding take_message layout_response
take_message-layout_response code seq = rw take_byte-cons refl
