-- ===== src/Response/Laws.antt =====
-- A response that was sent is received as its code.
use atxp.Common.{
  ℕ, ◌≡◌, ◌≢◌, refl, ap, sym, ◌∙◌, subst, some, [], ◌∷◌, ◌++◌, All, All-append, append_assoc,
  append-nil, drop-append, arith, suc, length,
}
use atxp.Common.Int.{ℤ, pos, negsuc}
use atxp.Errors.{ok}
use atxp.Wire.{Bytes}
use atxp.Conn.{World, write, write_bytes}
use atxp.Conn.Stream.{stream}
use atxp.Frame.Transfer.{sent_between}
use atxp.Message.{ResponseCode}
use atxp.Packet.{newlines}
use atxp.Packet.Parts.{HasNoNewline}
use atxp.Packet.Pieces.{HasNoNewline-EndsFirst}
use atxp.Decimal.{digits, print_int, skip_newline}
use atxp.Decimal.Print.{IsDigit, digits-IsDigit}
use atxp.Decimal.Laws.{IsInt, scan_int-print_int}
use atxp.Transport.Laws.{receive-newlines}
use atxp.Response.{
  response_mark, response_text, scan_response, send_response, decode_response, received_response,
  receive_response, end_response,
}

All-IsDigit : (s : Bytes) → All IsDigit s → HasNoNewline s
All-IsDigit [] h = tt
All-IsDigit (x ∷ s) (digit, h) = (omega arith, All-IsDigit s h)

digits-HasNoNewline : (n : ℕ) → HasNoNewline (digits (suc n) n)
digits-HasNoNewline n =
    let (x, s, d, all) = digits-IsDigit (suc n) n (omega arith) in
    subst HasNoNewline (sym d) (All-IsDigit (x ∷ s) all)

print_int-HasNoNewline : (i : ℤ) → HasNoNewline (print_int i)
unfolding print_int
print_int-HasNoNewline (pos n) = digits-HasNoNewline n
print_int-HasNoNewline (negsuc n) = (omega arith, digits-HasNoNewline (suc n))

mark-HasNoNewline : HasNoNewline response_mark
mark-HasNoNewline = search arith depth 40

-- Sscanf reads the code that Sprintf has printed.
pub scan_response-response_text :
    (code : ResponseCode) → IsInt code → scan_response (response_text code) ≡ some code
unfolding scan_response response_text skip_newline
scan_response-response_text code h = ap end_response (scan_int-print_int code newlines h refl)

decode_response-response_text :
    (code : ResponseCode) → IsInt code → decode_response (response_text code) ≡ ok code
unfolding decode_response response_text
decode_response-response_text code h = rw (scan_response-response_text code h, decode_response) refl

-- What `SendResponse` put out when it succeeded, and what it returned.
pub send_response_inv :
    (code c : ResponseCode) (w : World)
    → (send_response code w).0 ≡ ok c
    → ((send_response code w).1.conn.trace ≡ w.conn.trace ++ write (response_text code) ∷ [])
      × (c ≡ pos (length (response_text code)))
unfolding send_response write_bytes
send_response_inv code c w h = ground arith

-- A response that `SendResponse` has written is the one that ReceiveResponse returns at a connection
-- on which the bytes come in, however they are cut into reads, for every code that is an `int` of 64
-- bits; what follows is left in the stream. SendResponse itself returns the number of bytes it wrote.
pub receive_response-send_response :
    (code c : ResponseCode) (rest : Bytes) (w v : World)
    → IsInt code
    → (send_response code w).0 ≡ ok c
    → stream v.conn.incoming ≡ sent_between w (send_response code w).1 ++ rest
    → ((receive_response v).0 ≡ ok code)
      × (stream (receive_response v).1.conn.incoming ≡ rest)
      × (c ≡ pos (length (response_text code)))
unfolding response_text receive_response
receive_response-send_response code c rest w v h sent arrives =
    let (t, count) = send_response_inv code c w sent in
    let out : sent_between w (send_response code w).1
        ≡ (response_mark ++ print_int code) ++ newlines =
      rw (t, drop-append w.conn.trace, append-nil)
        (sym (append_assoc response_mark (print_int code) newlines)) in
    let clean =
      All-append (λ x. x ≢ 10) response_mark (print_int code) mark-HasNoNewline
        (print_int-HasNoNewline code) in
    let (got, left) =
      receive-newlines (response_mark ++ print_int code) rest v
        (HasNoNewline-EndsFirst (response_mark ++ print_int code) clean)
        (arrives ∙ ap (λ p. p ++ rest) out) in
    (
      ap received_response (got ∙ ap ok (append_assoc response_mark (print_int code) newlines))
          ∙ decode_response-response_text code h,
      left,
      count,
    )
