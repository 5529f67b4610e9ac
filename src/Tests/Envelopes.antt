-- ===== src/Tests/Envelopes.antt =====
-- Runs of the envelope on the sample message, and instances of its laws.
use atxp.Common.{◌≡◌, refl, some, [], ◌∷◌, All, arith}
use atxp.Common.Int.{pos}
use atxp.Errors.{ok, ◌>>=◌}
use atxp.Wire.{
  Bytes, IsByte, append_uint32, append_uint64, append_field, uint32, uint64, read_byte, read_uint32,
  read_uint64, read_field, read_bytes, done,
}
use atxp.Envelope.{
  finish, assign, serialize_v2, deserialize_v2, deserialize_response_v2, read_message,
  read_response,
}
use atxp.Envelope.Spec.{take_message, deserialize_v2-take}
use atxp.Envelope.Laws.{received, deserialize_v2-serialize_v2, serialize_v2-deserialize_v2}
use atxp.Tests.Data.{box_of_option, blank_message, sample_message, sample_Fits}

-- The envelope of the sample message with sequence number 258.
abbrev sample_envelope : Bytes
sample_envelope =
    1 ∷ 0 ∷ 0 ∷ 0 ∷ 0 ∷ 0 ∷ 0 ∷ 1 ∷ 2 ∷ 0 ∷ 0 ∷ 0 ∷ 1 ∷ 0 ∷ 0 ∷ 0 ∷ 2 ∷ 104 ∷ 105 ∷ 0 ∷ 0 ∷ 0 ∷ 3
    ∷ 98 ∷ 111 ∷ 98 ∷ 0 ∷ 0 ∷ 0 ∷ 1 ∷ 102 ∷ []

sample_serialized :
    serialize_v2 ⦃box = box_of_option⦄ (some sample_message) 258 ≡ ok sample_envelope
unfolding serialize_v2 append_uint32 append_uint64 append_field
sample_serialized = refl

sample_read :
    deserialize_v2 ⦃box = box_of_option⦄ sample_envelope (some blank_message)
    ≡ ok (received ⦃box = box_of_option⦄ sample_message, 258)
unfolding deserialize_v2 read_message read_byte read_uint32 read_uint64 read_field read_bytes done
    uint32 uint64
sample_read = refl

sample_bytes : All IsByte sample_envelope
sample_bytes = search arith depth 40

deserialize_v2-serialize_v2_example :
    (serialize_v2 ⦃box = box_of_option⦄ (some sample_message) 258 >>= λ bs.
    deserialize_v2 ⦃box = box_of_option⦄ bs (some blank_message))
    ≡ ok (received ⦃box = box_of_option⦄ sample_message, 258)
deserialize_v2-serialize_v2_example =
    deserialize_v2-serialize_v2 ⦃box = box_of_option⦄ sample_message blank_message 258
      (sample_Fits 258 (omega arith))

serialize_v2-deserialize_v2_example :
    serialize_v2 ⦃box = box_of_option⦄ (some (received ⦃box = box_of_option⦄ sample_message)) 258
    ≡ ok sample_envelope
serialize_v2-deserialize_v2_example =
    serialize_v2-deserialize_v2 ⦃box = box_of_option⦄ sample_envelope blank_message
      (received ⦃box = box_of_option⦄ sample_message) 258 sample_bytes sample_read

deserialize_v2-take_example :
    deserialize_v2 ⦃box = box_of_option⦄ sample_envelope (some blank_message)
    ≡ finish (assign ⦃box = box_of_option⦄ blank_message) (take_message sample_envelope)
deserialize_v2-take_example =
    deserialize_v2-take ⦃box = box_of_option⦄ sample_envelope blank_message

-- The code -1 arrives as 4294967295.
abbrev response_envelope : Bytes
response_envelope = 2 ∷ 0 ∷ 0 ∷ 0 ∷ 0 ∷ 0 ∷ 0 ∷ 0 ∷ 7 ∷ 0 ∷ 0 ∷ 0 ∷ 1 ∷ []

response_read : deserialize_response_v2 response_envelope ≡ ok (pos 1, 7)
unfolding deserialize_response_v2 read_response read_byte read_uint32 read_uint64 done uint32 uint64
response_read = refl

response_bytes : All IsByte response_envelope
response_bytes = search arith depth 40
