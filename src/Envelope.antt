-- ===== src/Envelope.antt =====
-- v2.go, the inner plaintext envelope: SerializeV2, DeserializeV2 and their response counterparts.
-- A nil `*Message` is `none`. On an error Go also returns zero values, which no caller reads.
pub mod Spec
pub mod Layout
pub mod Canonical
pub mod Laws
use atxp.Common.{ℕ, Option, none, some, List, [], ◌∷◌, ◌==◌, if◌then◌else◌}
use atxp.Common.Int.{pos, to_uint32}
use atxp.Common.Parser.{Parser, pure, guard, ◌>>=◌, ◌>>◌}
use atxp.Errors.{Result, ok, err, sentinel, err_invalid_format, err_invalid_envelope}
use atxp.Wire.{
  Bytes, EnvelopeReader, append_uint32, append_uint64, append_field, read_byte, read_uint32,
  read_uint64, read_field, done,
}
use atxp.Message.{Box, Message, ResponseCode}

abbrev pub kind_message : ℕ
kind_message = 0x01

abbrev pub kind_response : ℕ
kind_response = 0x02

-- What a message envelope carries.
pub record Fields : Type 0 where
  pub seq : ℕ
  pub code : ℕ
  pub payload : Bytes
  pub username : Bytes
  pub filename : Bytes

-- &envelopeReader{b: plaintext}
abbrev pub reader : Bytes → EnvelopeReader
reader plaintext = record { b = plaintext; off = 0 }

-- Every structural fault is `ErrInvalidEnvelope`.
module _ {S A B : Type 0} where
  abbrev pub finish : (A → B) → Option (A × S) → Result B
  finish f none = err (sentinel err_invalid_envelope)
  finish f (some (a, s)) = ok (f a)

-- The reads of `DeserializeV2`, in their order.
unfoldable pub read_message : Parser EnvelopeReader Fields
read_message = do
  kind ← read_byte
  guard (kind == kind_message)
  seq ← read_uint64
  code ← read_uint32
  payload ← read_field
  username ← read_field
  filename ← read_field
  finished ← done
  guard finished
  pure (record {
    seq = seq;
    code = code;
    payload = payload;
    username = username;
    filename = filename;
  })

-- The reads of `deserializeResponseV2`.
unfoldable pub read_response : Parser EnvelopeReader (ResponseCode × ℕ)
read_response = do
  kind ← read_byte
  guard (kind == kind_response)
  seq ← read_uint64
  code ← read_uint32
  finished ← done
  guard finished
  pure (pos code, seq)

unfoldable pub serialize_response_v2 : ResponseCode → ℕ → Bytes
serialize_response_v2 code seq =
    append_uint32 (append_uint64 (kind_response ∷ []) seq) (to_uint32 code)

unfoldable pub deserialize_response_v2 : Bytes → Result (ResponseCode × ℕ)
deserialize_response_v2 plaintext = finish (λ q. q) (read_response (reader plaintext))

module _ {O : Type 0} ⦃box : Box O⦄ where
  -- The bytes of `msg.Data`, none if it is empty.
  abbrev pub payload_of : Message O → Bytes
  payload_of msg = if box.is_empty msg.body then [] else box.get msg.body

  unfoldable pub serialize_v2 : Option (Message O) → ℕ → Result Bytes
  serialize_v2 none seq = err (sentinel err_invalid_format)
  serialize_v2 (some msg) seq =
      let buf = kind_message ∷ [] in
      let buf1 = append_uint64 buf seq in
      let buf2 = append_uint32 buf1 (to_uint32 msg.type) in
      let buf3 = append_field buf2 (payload_of msg) in
      let buf4 = append_field buf3 msg.auth.username in ok (append_field buf4 msg.filename)

  -- The assignments at the end of `DeserializeV2`, with the sequence number that it returns.
  abbrev pub assign : Message O → Fields → Message O × ℕ
  assign msg f = (
    record msg {
      type = pos f.code;
      body = box.new_some f.payload;
      auth = record { username = f.username; password = [] };
      filename = f.filename;
    },
    f.seq,
  )

  -- Returns the message that `msg` points to after the call, and the sequence number.
  unfoldable pub deserialize_v2 : Bytes → Option (Message O) → Result (Message O × ℕ)
  deserialize_v2 plaintext none = err (sentinel err_invalid_format)
  deserialize_v2 plaintext (some msg) = finish (assign msg) (read_message (reader plaintext))
