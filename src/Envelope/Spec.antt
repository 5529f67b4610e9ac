-- ===== src/Envelope/Spec.antt =====
-- The envelope over plain lists: what `DeserializeV2` computes with its cursor is what the abstract
-- reader takes off the front of the plaintext.
use atxp.Common.{ℕ, ◌≡◌, refl, ap, Option, none, some, ◌==◌, arith}
use atxp.Common.Int.{pos}
use atxp.Common.Parser.{Parser, pure, guard, ◌>>=◌, ◌>>◌}
use atxp.Errors.{ok}
use atxp.Wire.{Bytes, EnvelopeReader}
use atxp.Wire.Reader.{
  take_byte, take_uint32, take_uint64, take_field, at_end, Simulates, Refines, reader_rules,
}
use atxp.Message.{Box, Message, ResponseCode}
use atxp.Envelope.{
  Fields, kind_message, kind_response, reader, finish, read_message, read_response, assign,
  deserialize_v2, deserialize_response_v2,
}

unfoldable pub take_message : Parser Bytes Fields
take_message = do
  kind ← take_byte
  guard (kind == kind_message)
  seq ← take_uint64
  code ← take_uint32
  payload ← take_field
  username ← take_field
  filename ← take_field
  finished ← at_end
  guard finished
  pure (record {
    seq = seq;
    code = code;
    payload = payload;
    username = username;
    filename = filename;
  })

unfoldable pub take_response : Parser Bytes (ResponseCode × ℕ)
take_response = do
  kind ← take_byte
  guard (kind == kind_response)
  seq ← take_uint64
  code ← take_uint32
  finished ← at_end
  guard finished
  pure (pos code, seq)

read_message-Refines : Refines read_message take_message
unfolding read_message take_message
read_message-Refines = search reader_rules depth 20

read_response-Refines : Refines read_response take_response
unfolding read_response take_response
read_response-Refines = search reader_rules depth 20

module _ {A B : Type 0} where
  finish-Simulates :
      (f : A → B) (x : Option (A × EnvelopeReader)) (y : Option (A × Bytes))
      → Simulates x y
      → finish f x ≡ finish f y
  finish-Simulates f none none h = refl
  finish-Simulates f none (some q) h = absurd h
  finish-Simulates f (some p) none h = absurd h
  finish-Simulates f (some (a, r)) (some (c, bs)) h = ap (λ t. ok (f t)) h.0

module _ {O : Type 0} ⦃box : Box O⦄ where
  -- Of every plaintext `DeserializeV2` into a message that is not nil returns what the abstract
  -- reader gives, which takes the fields of the documented layout from the front of the list and
  -- has no offset: the same fields, or the malformed-packet error where a field or a byte is too
  -- many or too few.
  pub deserialize_v2-take :
      (bs : Bytes) (msg : Message O)
      → deserialize_v2 bs (some msg) ≡ finish (assign msg) (take_message bs)
  unfolding deserialize_v2
  deserialize_v2-take bs msg =
      finish-Simulates (assign msg) (read_message (reader bs)) (take_message bs)
        (read_message-Refines.at (reader bs) (omega arith))

pub deserialize_response_v2-take :
    (bs : Bytes) → deserialize_response_v2 bs ≡ finish (λ q. q) (take_response bs)
unfolding deserialize_response_v2
deserialize_response_v2-take bs =
    finish-Simulates (λ q. q) (read_response (reader bs)) (take_response bs)
      (read_response-Refines.at (reader bs) (omega arith))
