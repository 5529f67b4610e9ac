-- ===== src/Frame.antt =====
-- v2.go, the length-prefixed encrypted frames. The count of bytes that Go returns beside a write
-- error is not modelled; the bytes that went out are in the trace of the connection.
pub mod Read
pub mod Bounds
pub mod Write
pub mod Transfer
pub mod Quiet
pub mod Genuine
pub mod Output
pub mod Silent
use atxp.Common.{ℕ, ◌+◌, ◌^◌, ◌%◌, Option, some, ◌++◌, [], not, length, ltb, if◌then◌else◌}
use atxp.Common.Int.{ℤ, pos, le_int, to_uint32}
use atxp.Errors.{sentinel, err_frame_too_large, err_frame_too_small}
use atxp.Wire.{Bytes, append_uint32, uint32}
use atxp.Conn.{
  Io, arm_read, arm_write, write_bytes, read_full, on_entropy, pure, throw, lift, wrap_err, ◌>>=◌,
  ◌>>◌,
}
use atxp.Crypto.{Cipher, nonce_size, gcm_tag_size}
use atxp.Message.{Box, Message, ResponseCode}
use atxp.Envelope.{serialize_v2, deserialize_v2, serialize_response_v2, deserialize_response_v2}

abbrev pub length_prefix_size : ℕ
length_prefix_size = 4

abbrev pub max_frame_size_v2 : ℤ
max_frame_size_v2 = pos (2 ^ 24)

abbrev pub min_frame_size_v2 : ℕ
min_frame_size_v2 = nonce_size + gcm_tag_size

-- 30 * time.Second, in nanoseconds
abbrev pub default_io_timeout : ℤ
default_io_timeout = pos 30_000_000_000

-- The frame around a sealed plaintext: PutUint32 of the length, then a copy.
unfoldable pub frame_of : Bytes → Bytes
frame_of sealed = append_uint32 [] (length sealed % 2 ^ 32) ++ sealed

-- The part of `writeFrame` behind the call of `Seal`.
unfoldable pub write_sealed : Bytes → ℤ → Io ℕ
write_sealed sealed max_frame_size =
    if not (le_int (pos (length sealed)) max_frame_size)
    then throw (sentinel err_frame_too_large)
    else do
      wrap_err "atxp.writeFrame" (arm_write default_io_timeout)
      wrap_err "atxp.writeFrame" (write_bytes (frame_of sealed))

unfoldable pub write_frame : Cipher → Bytes → ℤ → Io ℕ
write_frame c plaintext max_frame_size = do
  sealed ← wrap_err "atxp.writeFrame" (on_entropy (c.seal plaintext))
  write_sealed sealed max_frame_size

-- The part of `readFrame` behind the length `n`.
unfoldable pub read_sealed : Cipher → ℕ → ℤ → Io Bytes
read_sealed c n max_frame_size =
    if ltb (to_uint32 max_frame_size) n
    then throw (sentinel err_frame_too_large)
    else if ltb n (nonce_size + gcm_tag_size)
    then throw (sentinel err_frame_too_small)
    else do sealed ← read_full n; lift (c.open_sealed sealed)

unfoldable pub read_frame : Cipher → ℤ → Io Bytes
read_frame c max_frame_size = do
  wrap_err "atxp.readFrame" (arm_read default_io_timeout)
  len_buf ← read_full length_prefix_size
  read_sealed c (uint32 len_buf) max_frame_size

unfoldable pub send_response_frame : Cipher → ResponseCode → ℕ → ℤ → Io (Unit {0})
send_response_frame c code seq max_frame_size = do
  write_frame c (serialize_response_v2 code seq) max_frame_size
  pure tt

unfoldable pub receive_response_frame : Cipher → ℤ → Io (ResponseCode × ℕ)
receive_response_frame c max_frame_size = do
  plaintext ← read_frame c max_frame_size
  lift (deserialize_response_v2 plaintext)

unfoldable pub send_response_v2 : Cipher → ResponseCode → ℕ → Io (Unit {0})
send_response_v2 c code seq = send_response_frame c code seq max_frame_size_v2

unfoldable pub receive_response_v2 : Cipher → Io (ResponseCode × ℕ)
receive_response_v2 c = receive_response_frame c max_frame_size_v2

module _ {O : Type 0} ⦃box : Box O⦄ where
  unfoldable pub send_message_frame : Cipher → Option (Message O) → ℕ → ℤ → Io ℕ
  send_message_frame c msg seq max_frame_size = do
    plaintext ← lift (serialize_v2 msg seq)
    write_frame c plaintext max_frame_size

  -- `blank` is the zero value of `Message`, into which the frame is decoded.
  unfoldable pub receive_message_frame : Message O → Cipher → ℤ → Io (Message O × ℕ)
  receive_message_frame blank c max_frame_size = do
    plaintext ← read_frame c max_frame_size
    lift (deserialize_v2 plaintext (some blank))

  unfoldable pub send_v2 : Cipher → Option (Message O) → ℕ → Io ℕ
  send_v2 c msg seq = send_message_frame c msg seq max_frame_size_v2

  unfoldable pub receive_v2 : Message O → Cipher → Io (Message O × ℕ)
  receive_v2 blank c = receive_message_frame blank c max_frame_size_v2
