-- ===== src/Transport.antt =====
-- atxp.go, the transport of version 1: Receive and Send. `Read` fills a buffer of one byte; its calls
-- are left out of the trace of the connection.
pub mod Packets
pub mod Laws
use atxp.Common.{
  ℕ, Bool, false, Option, none, some, List, [], ◌∷◌, ◌++◌, ◌||◌, ◌⊎◌, inl, inr, eq_bytes,
  if◌then◌else◌,
}
use atxp.Errors.{
  Error, new_error, sentinel, eof, unexpected_eof, other, wrap, wrap_both, Result, ok, err,
}
use atxp.Wire.{Bytes}
use atxp.Conn.{Event, arrive, fail, World, Io, on_conn, write_bytes}
use atxp.Message.{Box, Message}
use atxp.Packet.{newlines, serialize}

-- strings.HasSuffix(s, "\n\n")
abbrev pub ends_packet : Bytes → Bool
ends_packet [] = false
ends_packet (x ∷ s) = eq_bytes (x ∷ s) newlines || ends_packet s

-- The loop over bytes that have come in: what was built and the rest, if the packet is complete, and
-- else what was built.
unfoldable pub scan : Bytes → Bytes → (Bytes × Bytes) ⊎ Bytes
scan built [] = inr built
scan built (x ∷ bs) =
    let more = scan (built ++ x ∷ []) bs in
    if ends_packet (built ++ x ∷ []) then inl (built ++ x ∷ [], bs) else more

-- The end of `Receive` on an error of `Read`.
abbrev pub read_failed : Bytes → Error → Result Bytes
read_failed built eof = ok built
read_failed built unexpected_eof = err unexpected_eof
read_failed built (sentinel s) = err (sentinel s)
read_failed built (new_error s) = err (new_error s)
read_failed built (other n) = err (other n)
read_failed built (wrap s e) = err (wrap s e)
read_failed built (wrap_both s e f) = err (wrap_both s e f)

-- The loop of `Receive`; an exhausted script is the end of the stream.
unfoldable pub receive_loop : Bytes → List Event → Result Bytes × List Event
receive_loop built [] = (ok built, [])
receive_loop built (fail e ∷ es) = (read_failed built e, es)
receive_loop built (arrive bs ∷ es) = elim (scan built bs) [
  | inl (packet, rest) ↦ (ok packet, arrive rest ∷ es)
  | inr more ↦ receive_loop more es
]

unfoldable pub receive : Io Bytes
receive w =
    let (r, es) = receive_loop [] w.conn.incoming in
    (r, on_conn (λ k. record k { incoming = es }) w)

module _ {O : Type 0} ⦃box : Box O⦄ where
  -- Also returns the message that `msg` points to after the call, none if it was nil.
  unfoldable pub send_packet : Option (Message O) → World → Result ℕ × Option (Message O) × World
  send_packet msg w = elim (serialize msg) [
    | err e ↦ (err e, msg, w)
    | ok (payload, msg') ↦ let (r, w') = write_bytes payload w in (r, some msg', w')
  ]
