-- ===== src/Tests/Frames.antt =====
-- Runs of the frames under the toy cipher, and instances of their laws.
use atxp.Common.{
  ◌≤◌, ◌++◌, ◌∷◌, length, ◌^◌, ◌≡◌, ◌≢◌, refl, some, List, [], ltb, max, inl, All, arith,
  append-nil, if◌then◌else◌,
}
use atxp.Common.Int.{pos, to_uint32}
use atxp.Errors.{ok, err, sentinel, err_frame_too_large, err_frame_too_small}
use atxp.Wire.{Bytes, append_uint32, append_uint64, append_field, uint32}
use atxp.Conn.{
  World, Call, set_read_deadline, arrive, arm_read, arm_write, write_bytes, read_full, read_loop,
  rand_read, random_bytes,
}
use atxp.Conn.Stream.{stream}
use atxp.Crypto.{gcm_cipher, seal_gcm, open_gcm}
use atxp.Message.{ok_code}
use atxp.Envelope.{serialize_v2, serialize_response_v2}
use atxp.Envelope.Laws.{received}
use atxp.Frame.{
  frame_of, send_message_frame, receive_message_frame, send_response_frame, write_frame,
  write_sealed, read_frame, read_sealed, max_frame_size_v2, default_io_timeout,
}
use atxp.Frame.Read.{read_frame_inv, read_frame-append_uint32}
use atxp.Frame.Bounds.{ReadsUpTo, read_frame_reads, read_frame_low_cap}
use atxp.Frame.Transfer.{sent_between, receive_message_frame-send_message_frame}
use atxp.Tests.Data.{
  box_of_option, toy_crypto, toy_key_bytes, toy_cipher, toy_cipher-IsSound, toy_seal, world_of,
  in_pieces, in_pieces-stream, blank_message, sample_message, sample_Fits, client_sent,
}

sample_sent :
    (send_message_frame ⦃box = box_of_option⦄ toy_cipher
      (some sample_message)
      1
      max_frame_size_v2
      (world_of [])).0
    ≡ ok 63
unfolding send_message_frame serialize_v2 write_frame write_sealed arm_write write_bytes frame_of
    gcm_cipher seal_gcm rand_read random_bytes toy_crypto append_uint32 append_uint64 append_field
sample_sent = refl

abbrev arriving_world : World
arriving_world = in_pieces (sent_between (world_of []) client_sent)

receive_message_frame-send_message_frame_example :
    ((receive_message_frame ⦃box = box_of_option⦄ blank_message toy_cipher max_frame_size_v2
        arriving_world).0
      ≡ ok (received ⦃box = box_of_option⦄ sample_message, 1))
    × (stream
          (receive_message_frame ⦃box = box_of_option⦄ blank_message toy_cipher max_frame_size_v2
            arriving_world).1.conn.incoming
        ≡ [])
receive_message_frame-send_message_frame_example =
    receive_message_frame-send_message_frame toy_cipher toy_cipher-IsSound max_frame_size_v2
      max_frame_size_v2 refl ⦃box = box_of_option⦄ sample_message blank_message 1 63 []
      (world_of []) arriving_world (sample_Fits 1 (omega arith)) sample_sent
      (record { arrives = in_pieces-stream (sent_between (world_of []) client_sent); works = refl })

abbrev response_sent : World
response_sent = (send_response_frame toy_cipher ok_code 1 max_frame_size_v2 (world_of [])).1

ok_sent : (send_response_frame toy_cipher ok_code 1 max_frame_size_v2 (world_of [])).0 ≡ ok tt
unfolding send_response_frame serialize_response_v2 write_frame write_sealed arm_write write_bytes
    frame_of gcm_cipher seal_gcm rand_read random_bytes toy_crypto append_uint32 append_uint64
ok_sent = refl

abbrev answered_world : World
answered_world = in_pieces (sent_between (world_of []) response_sent)

-- A sealed "hi", with a nonce of zeros.
abbrev zero_nonce : Bytes
zero_nonce = 0 ∷ 0 ∷ 0 ∷ 0 ∷ 0 ∷ 0 ∷ 0 ∷ 0 ∷ 0 ∷ 0 ∷ 0 ∷ 0 ∷ []

abbrev sealed_hi : Bytes
sealed_hi = zero_nonce ++ toy_seal toy_key_bytes zero_nonce (104 ∷ 105 ∷ [])

abbrev hi_world : World
hi_world = world_of (arrive (0 ∷ 0 ∷ 0 ∷ 30 ∷ []) ∷ arrive (sealed_hi ++ 9 ∷ []) ∷ [])

hi_read : (read_frame toy_cipher max_frame_size_v2 hi_world).0 ≡ ok (104 ∷ 105 ∷ [])
unfolding read_frame read_sealed read_full read_loop arm_read uint32 open_gcm gcm_cipher
    random_bytes toy_crypto
hi_read = refl

read_frame_inv_example :
    (len_buf : Bytes) × (sealed : Bytes) × (stream hi_world.conn.incoming
      ≡ len_buf
        ++ (sealed ++ stream (read_frame toy_cipher max_frame_size_v2 hi_world).1.conn.incoming))
    × (length len_buf ≡ 4)
    × (uint32 len_buf ≡ length sealed)
    × (28 ≤ length sealed)
    × (length sealed ≤ to_uint32 max_frame_size_v2)
    × (toy_cipher.open_sealed sealed ≡ ok (104 ∷ 105 ∷ []))
read_frame_inv_example =
    read_frame_inv toy_cipher max_frame_size_v2 hi_world (104 ∷ 105 ∷ []) hi_read

read_frame_reads_example :
    (reads : List Call) × ((read_frame toy_cipher (pos 64) hi_world).1.conn.trace
      ≡ [] ++ set_read_deadline default_io_timeout ∷ reads)
    × All (ReadsUpTo (max 4 (to_uint32 (pos 64)))) reads
read_frame_reads_example = read_frame_reads toy_cipher (pos 64) hi_world

-- A cap of 29 does not admit the 30 bytes that are announced.
abbrev announced_world : World
announced_world = world_of (arrive (append_uint32 [] 30 ++ 9 ∷ []) ∷ [])

read_frame-append_uint32_example :
    ((read_frame toy_cipher (pos 29) announced_world).0
      ≡ err (
          sentinel
            (if ltb (to_uint32 (pos 29)) 30 then err_frame_too_large else err_frame_too_small)))
    × (stream (read_frame toy_cipher (pos 29) announced_world).1.conn.incoming ≡ 9 ∷ [])
read_frame-append_uint32_example =
    read_frame-append_uint32 toy_cipher (pos 29) announced_world 30 (9 ∷ []) refl (omega arith)
      (append-nil (append_uint32 [] 30 ++ 9 ∷ [])) (inl (omega arith))

read_frame_low_cap_example : (read_frame toy_cipher (pos (2 ^ 32)) hi_world).0 ≢ ok (104 ∷ 105 ∷ [])
read_frame_low_cap_example =
    read_frame_low_cap toy_cipher (pos (2 ^ 32)) hi_world (104 ∷ 105 ∷ []) (omega arith)
