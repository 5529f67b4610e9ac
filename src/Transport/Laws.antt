-- ===== src/Transport/Laws.antt =====
-- `Receive` takes exactly the first packet of the stream.
use atxp.Common.{
  eq_bytes, ℕ, ◌≡◌, refl, ap, sym, ◌∙◌, subst, Bool, true, false, some, List, [], ◌∷◌, ◌++◌, ◌⊎◌,
  inl, inr, arith, append_assoc, append-nil, length, length-append, drop-append,
}
use atxp.Errors.{Result, ok}
use atxp.Wire.{Bytes}
use atxp.Conn.{Event, arrive, fail, World, write, write_bytes}
use atxp.Conn.Stream.{stream}
use atxp.Packet.{
  index, has_prefix, newlines, type_to_string, filled, name_part, serialize, deserialize, decoded,
}
use atxp.Packet.Laws.{
  IsPlain, delivered, serialize-packet_of, serialize-newlines, deserialize-serialize,
}
use atxp.Message.{Box, Message}
use atxp.Frame.Transfer.{sent_between}
use atxp.Packet.Parts.{packet_of, EndsFirst}
use atxp.Transport.{ends_packet, scan, receive_loop, receive, send_packet}

abbrev pub is_nil : Bytes → Bool
is_nil [] = true
is_nil (x ∷ xs) = false

EndsFirst-cons :
    (f : ℕ) (front : Bytes)
    → EndsFirst (f ∷ front)
    → (has_prefix ((f ∷ front) ++ newlines) newlines ≡ false) × EndsFirst front
unfolding index
EndsFirst-cons f front h = ground arith

eq_bytes-append_one : (built : Bytes) (x : ℕ) → eq_bytes (built ++ x ∷ []) [] ≡ false
eq_bytes-append_one [] x = refl
eq_bytes-append_one (a ∷ built) x = refl

-- What does not begin with two newlines is not two newlines.
eq_bytes-newlines :
    (built todo : Bytes) (x : ℕ)
    → has_prefix (built ++ x ∷ todo) newlines ≡ false
    → eq_bytes (built ++ x ∷ []) newlines ≡ false
eq_bytes-newlines [] todo x h = ground arith
eq_bytes-newlines (a ∷ []) todo x h = ground arith
eq_bytes-newlines (a ∷ b ∷ built) todo x h = ground (arith, eq_bytes-append_one built x)

-- The front of a packet is complete when nothing is left, and not before.
pub ends_packet-append :
    (front built todo : Bytes) (x : ℕ)
    → EndsFirst front
    → built ++ x ∷ todo ≡ front ++ newlines
    → ends_packet (built ++ x ∷ []) ≡ is_nil todo
ends_packet-append [] [] [] x h e = cc e
ends_packet-append [] [] (y ∷ todo) x h e = ground arith
ends_packet-append [] (a ∷ []) [] x h e = ground arith
ends_packet-append [] (a ∷ []) (y ∷ todo) x h e = cc e
ends_packet-append [] (a ∷ b ∷ built) todo x h e =
    absurd (omega (arith, ap length e, length-append built (x ∷ todo)))
ends_packet-append (f ∷ front) [] [] x h e =
    absurd (omega (arith, ap length e, length-append front newlines))
ends_packet-append (f ∷ front) [] (y ∷ todo) x h e = ground arith
ends_packet-append (f ∷ front) (a ∷ built) todo x h e =
    let (other, later) = EndsFirst-cons f front h in
    let none_yet : eq_bytes ((a ∷ built) ++ x ∷ []) newlines ≡ false =
      eq_bytes-newlines (a ∷ built) todo x (ap (λ s. has_prefix s newlines) e ∙ other) in
    rw none_yet (ends_packet-append front built todo x later (cc e))

-- What a scan has come to, of a packet of which `todo` is still to come behind `built`.
abbrev Scanned : Bytes → Bytes → Bytes → (Bytes × Bytes) ⊎ Bytes → Type 0
Scanned packet rest more (inl (got, left)) = (got ≡ packet) × (left ++ more ≡ rest)
Scanned packet rest more (inr built) =
    (x : ℕ) × (todo : Bytes) × (built ++ x ∷ todo ≡ packet) × (more ≡ x ∷ (todo ++ rest))

scan-Scanned :
    (front built todo rest more bs : Bytes) (x : ℕ)
    → EndsFirst front
    → built ++ x ∷ todo ≡ front ++ newlines
    → bs ++ more ≡ x ∷ (todo ++ rest)
    → Scanned (front ++ newlines) rest more (scan built bs)
unfolding scan
scan-Scanned front built todo rest more [] x h e s = (x, todo, e, s)
scan-Scanned front built [] rest more (b ∷ bs) x h e s =
    let same : b ≡ x = cc s in
    let ended : ends_packet (built ++ b ∷ []) ≡ true =
      subst (λ y. ends_packet (built ++ y ∷ []) ≡ true) (sym same)
        (ends_packet-append front built [] x h e) in
    rw ended (ap (λ y. built ++ y ∷ []) same ∙ e, cc s)
scan-Scanned front built (y ∷ todo) rest more (b ∷ bs) x h e s =
    let same : b ≡ x = cc s in
    let open_yet : ends_packet (built ++ b ∷ []) ≡ false =
      subst (λ y. ends_packet (built ++ y ∷ []) ≡ false) (sym same)
        (ends_packet-append front built (y ∷ todo) x h e) in
    rw open_yet (
      scan-Scanned front (built ++ b ∷ []) todo rest more bs y h
        (append_assoc built (b ∷ []) (y ∷ todo) ∙ ap (λ c. built ++ c ∷ y ∷ todo) same ∙ e) (cc s))

-- The packet that the loop returns, when its first byte that is missing is still to come.
receive_loop-packet :
    (front built todo rest : Bytes) (x : ℕ) (es : List Event)
    → EndsFirst front
    → built ++ x ∷ todo ≡ front ++ newlines
    → stream es ≡ x ∷ (todo ++ rest)
    → ((receive_loop built es).0 ≡ ok (front ++ newlines))
      × (stream (receive_loop built es).1 ≡ rest)
unfolding receive_loop
receive_loop-packet front built todo rest x [] h e s = cc s
receive_loop-packet front built todo rest x (fail f ∷ es) h e s = cc s
receive_loop-packet front built todo rest x (arrive bs ∷ es) h e s =
    by_scan (scan built bs) (scan-Scanned front built todo rest (stream es) bs x h e s)
      (λ more todo' y e' s'. receive_loop-packet front more todo' rest y es h e' s')
  where
    by_scan :
        (r : (Bytes × Bytes) ⊎ Bytes)
        → Scanned (front ++ newlines) rest (stream es) r
        → ((more todo' : Bytes) (y : ℕ)
            → more ++ y ∷ todo' ≡ front ++ newlines
            → stream es ≡ y ∷ (todo' ++ rest)
            → ((receive_loop more es).0 ≡ ok (front ++ newlines))
              × (stream (receive_loop more es).1 ≡ rest))
        → let q : Result Bytes × List Event = elim r [
          | inl (packet, left) ↦ (ok packet, arrive left ∷ es)
          | inr more ↦ receive_loop more es
        ] in
          (q.0 ≡ ok (front ++ newlines)) × (stream q.1 ≡ rest)
    by_scan (inl (got, left)) (same, remains) later = (ap ok same, remains)
    by_scan (inr more) (y, todo', e', s') later = later more todo' y e' s'

-- `Receive` returns the first packet of the stream, up to and with its two newlines, however the
-- stream is cut into reads, and leaves what follows.
pub receive-newlines :
    (front rest : Bytes) (w : World)
    → EndsFirst front
    → stream w.conn.incoming ≡ (front ++ newlines) ++ rest
    → ((receive w).0 ≡ ok (front ++ newlines)) × (stream (receive w).1.conn.incoming ≡ rest)
unfolding receive
receive-newlines [] rest w h s =
    receive_loop-packet [] [] (10 ∷ []) rest 10 w.conn.incoming h refl s
receive-newlines (f ∷ front) rest w h s =
    receive_loop-packet (f ∷ front) [] (front ++ newlines) rest f w.conn.incoming h refl s

pub write_bytes_inv :
    (bs : Bytes) (w : World) (n : ℕ)
    → (write_bytes bs w).0 ≡ ok n
    → (write_bytes bs w).1.conn.trace ≡ w.conn.trace ++ write bs ∷ []
unfolding write_bytes
write_bytes_inv bs w n h = ground arith

module _ {O : Type 0} ⦃box : Box O⦄ where
  send_packet_inv :
      (m : Message O) (w : World) (n : ℕ)
      → (send_packet (some m) w).0 ≡ ok n
      → (packet : Bytes) × (m' : Message O) × (serialize (some m) ≡ ok (packet, m'))
        × ((send_packet (some m) w).2.conn.trace ≡ w.conn.trace ++ write packet ∷ [])
  unfolding send_packet
  send_packet_inv m w n h =
      let packet =
        packet_of (type_to_string m.type) (box.get (filled m).body)
          (m.auth.username ++ b':' ∷ b':' ∷ (m.auth.password ++ name_part m)) in
      let sent : send_packet (some m) w
          ≡ ((write_bytes packet w).0, some (filled m), (write_bytes packet w).1) =
        rw (serialize-packet_of m, send_packet) refl in
      (
        packet,
        filled m,
        serialize-packet_of m,
        ap (λ q. q.2.conn.trace) sent ∙ write_bytes_inv packet w n (sym (ap (λ q. q.0) sent) ∙ h),
      )

  -- A message of plain parts (`IsPlain`) that `Send` has written is the next packet that `Receive`
  -- returns at a connection on which the bytes come in, however they are cut into reads; what
  -- follows is left in the stream, and Deserialize fills a message from the packet as it should.
  pub receive-send_packet :
      (m old : Message O) (n : ℕ) (rest : Bytes) (w v : World)
      → IsPlain m
      → (send_packet (some m) w).0 ≡ ok n
      → stream v.conn.incoming ≡ sent_between w (send_packet (some m) w).2 ++ rest
      → (packet : Bytes) × ((receive v).0 ≡ ok packet)
        × (stream (receive v).1.conn.incoming ≡ rest)
        × (deserialize packet (some old) ≡ decoded (delivered m old))
  receive-send_packet m old n rest w v plain sent arrives =
      let (packet, m', e, t) = send_packet_inv m w n sent in
      let (front, clean, shape) = serialize-newlines m m' packet plain e in
      let out : sent_between w (send_packet (some m) w).2 ≡ packet =
        rw (t, drop-append w.conn.trace, append-nil) refl in
      let (got, left) =
        receive-newlines front rest v clean (arrives ∙ ap (λ p. p ++ rest) (out ∙ shape)) in
      (packet, got ∙ ap ok (sym shape), left, deserialize-serialize m m' old packet plain e)
