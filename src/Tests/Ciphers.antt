-- ===== src/Tests/Ciphers.antt =====
-- Instances of the laws of the cipher, for the toy packages.
use atxp.Common.{◌≡◌, refl, [], ◌∷◌, ◌++◌, length}
use atxp.Errors.{ok}
use atxp.Wire.{Bytes}
use atxp.Conn.{random_bytes}
use atxp.Crypto.{gcm_cipher, open_gcm}
use atxp.Crypto.Laws.{IsSound, gcm_cipher-IsSound}
use atxp.Common.{◌+◌, some}
use atxp.Wire.{
  append_uint32, append_uint64, append_field, uint32, uint64, read_byte, read_uint32, read_uint64,
  read_field, read_bytes, done,
}
use atxp.Conn.{World, arm_read, arm_write, write_bytes, read_full, read_loop, rand_read}
use atxp.Conn.Stream.{stream}
use atxp.Crypto.{seal_gcm}
use atxp.Envelope.{serialize_v2, serialize_response_v2, deserialize_v2, read_message}
use atxp.Envelope.Laws.{received}
use atxp.Frame.{
  frame_of, send_message_frame, write_frame, write_sealed, read_frame, read_sealed,
  receive_message_frame, send_response_frame, max_frame_size_v2,
}
use atxp.Frame.Genuine.{receive_message_frame-genuine}
use atxp.Frame.Transfer.{sent_between}
use atxp.Tests.Data.{box_of_option, blank_message, sample_message, client_sent, world_of, in_pieces}
use atxp.Tests.Data.{toy_crypto, toy_key_bytes, toy_seal}

abbrev aead : toy_crypto.Aead
unfolding toy_crypto
aead = toy_key_bytes

gcm_cipher-IsSound_example : IsSound (gcm_cipher toy_crypto aead)
gcm_cipher-IsSound_example = gcm_cipher-IsSound toy_crypto aead

abbrev sealed_hi : Bytes
sealed_hi =
    let nonce = 0 ∷ 0 ∷ 0 ∷ 0 ∷ 0 ∷ 0 ∷ 0 ∷ 0 ∷ 0 ∷ 0 ∷ 0 ∷ 7 ∷ [] in
    nonce ++ toy_seal toy_key_bytes nonce (104 ∷ 105 ∷ [])

hi_opened : open_gcm toy_crypto aead sealed_hi ≡ ok (104 ∷ 105 ∷ [])
unfolding open_gcm toy_crypto random_bytes
hi_opened = refl

-- The frame that the client has sent comes in.
abbrev framed_world : World
framed_world = in_pieces (sent_between (world_of []) client_sent)

frame_received :
    (receive_message_frame ⦃box = box_of_option⦄ blank_message
      (gcm_cipher toy_crypto aead)
      max_frame_size_v2
      framed_world).0
    ≡ ok (received ⦃box = box_of_option⦄ sample_message, 1)
unfolding send_message_frame serialize_v2 write_frame write_sealed arm_write write_bytes frame_of
    gcm_cipher seal_gcm rand_read random_bytes toy_crypto append_uint32 append_uint64 append_field
    receive_message_frame read_frame read_sealed read_full read_loop open_gcm send_response_frame
    arm_read deserialize_v2 read_message read_byte read_uint32 read_uint64 read_field read_bytes
    done serialize_response_v2 uint32 uint64
frame_received = refl

receive_message_frame-genuine_example :
    (len_buf : Bytes) × (nonce : Bytes) × (envelope : Bytes) × (stream framed_world.conn.incoming
      ≡ len_buf
        ++ ((nonce ++ toy_crypto.gcm_seal aead nonce envelope)
            ++ stream
                (receive_message_frame ⦃box = box_of_option⦄ blank_message
                  (gcm_cipher toy_crypto aead)
                  max_frame_size_v2
                  framed_world).1.conn.incoming))
    × (length len_buf ≡ 4)
    × (length nonce ≡ 12)
    × (uint32 len_buf ≡ 12 + (length envelope + 16))
    × (deserialize_v2 ⦃box = box_of_option⦄ envelope (some blank_message)
        ≡ ok (received ⦃box = box_of_option⦄ sample_message, 1))
receive_message_frame-genuine_example =
    receive_message_frame-genuine toy_crypto ⦃box = box_of_option⦄ aead blank_message
      (received ⦃box = box_of_option⦄ sample_message) 1 max_frame_size_v2 framed_world
      frame_received
