-- ===== src/Response.antt =====
-- atxp.go, the responses of version 1: SendResponse and ReceiveResponse.
pub mod Laws
use atxp.Common.{
  ℕ, Bool, true, false, Option, none, some, List, [], ◌∷◌, ◌++◌, length, drop, if◌then◌else◌,
}
use atxp.Common.Int.{ℤ, pos}
use atxp.Errors.{Result, ok, err, sentinel, eof, err_invalid_format}
use atxp.Wire.{Bytes}
use atxp.Conn.{World, Io, write_bytes}
use atxp.Message.{ResponseCode}
use atxp.Packet.{newlines, has_prefix}
use atxp.Decimal.{print_int, scan_int, skip_newline}
use atxp.Transport.{receive}

-- "RESP:"
abbrev pub response_mark : Bytes
response_mark = b'R' ∷ b'E' ∷ b'S' ∷ b'P' ∷ b':' ∷ []

-- fmt.Sprintf("RESP:%d\n\n", responseCode)
unfoldable pub response_text : ResponseCode → Bytes
response_text code = response_mark ++ (print_int code ++ newlines)

-- The two newlines at the end of the format.
abbrev pub end_response : Option (ℤ × Bytes) → Option ℤ
end_response none = none
end_response (some (code, s)) = elim (skip_newline 0 s) [
  | none ↦ none
  | some s' ↦ elim (skip_newline 0 s') [ none ↦ none | some rest ↦ some code ]
]

-- fmt.Sscanf(buffer, "RESP:%d\n\n", &code): the code, none for an error
unfoldable pub scan_response : Bytes → Option ResponseCode
scan_response buffer =
    if has_prefix buffer response_mark
    then end_response (scan_int (drop (length response_mark) buffer))
    else none

-- The count of the bytes that were written, as a `ResponseCode`.
abbrev pub count_as_code : Result ℕ → Result ResponseCode
count_as_code (err e) = err e
count_as_code (ok n) = ok (pos n)

-- With an error Go also returns ERROR.
unfoldable pub send_response : ResponseCode → Io ResponseCode
send_response code w = let (r, w') = write_bytes (response_text code) w in (count_as_code r, w')

-- The part of `ReceiveResponse` behind the call of `Receive`.
unfoldable pub decode_response : Bytes → Result ResponseCode
decode_response [] = err eof
decode_response (x ∷ buffer) = elim (scan_response (x ∷ buffer)) [
  | none ↦ err (sentinel err_invalid_format)
  | some code ↦ ok code
]

-- An `io.EOF` of `Receive` leaves an empty buffer, for which `io.EOF` is returned as well.
abbrev pub received_response : Result Bytes → Result ResponseCode
received_response (err e) = err e
received_response (ok buffer) = decode_response buffer

unfoldable pub receive_response : Io ResponseCode
receive_response w = let (r, w') = receive w in (received_response r, w')
