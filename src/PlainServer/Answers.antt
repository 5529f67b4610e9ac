-- ===== src/PlainServer/Answers.antt =====
-- The server of version 1 answers every message of a client, in order.
use atxp.Common.{
  ℕ, ◌<◌, ◌≡◌, refl, ap, ap₂, length-map, sym, ◌∙◌, subst, Bool, true, false, none, some, List, [],
  ◌∷◌, ◌++◌, length, map, All, append_assoc,
}
use atxp.Common.Table.{lookup}
use atxp.Errors.{Result, ok, err}
use atxp.Wire.{Bytes}
use atxp.Conn.{World, close}
use atxp.Conn.Stream.{stream, ending}
use atxp.Message.{Box, Message, ResponseCode, error_code}
use atxp.Packet.{newlines, serialize, deserialize, decoded, filled}
use atxp.Packet.Laws.{
  IsPlain, delivered, deserialize-serialize, serialize-newlines, serialize-packet_of,
}
use atxp.Packet.Parts.{EndsFirst}
use atxp.Transport.Laws.{ends_packet-append}
use atxp.Transport.Packets.{is_eof, packets_from, packets_of, packets_from_ended, packets_from_open}
use atxp.Server.{Handler}
use atxp.PlainServer.{Control, returns, Act, Server, serve_connection}
use atxp.PlainServer.Spec.{
  IsAccepted, IsRejected, IsAccepted-unique, IsAccepted-IsRejected, Serves, finished, malformed,
  crashed, rejected, unrouted, handled, codes, replies,
}
use atxp.PlainServer.Connection.{serve_connection-Serves}

-- A packet with newlines at its end only is the first one of the stream.
packets_from-newlines :
    (proper : Bool) (front built todo rest : Bytes) (x : ℕ)
    → EndsFirst front
    → built ++ x ∷ todo ≡ front ++ newlines
    → packets_from proper built (x ∷ (todo ++ rest))
      ≡ (front ++ newlines) ∷ packets_from proper [] rest
packets_from-newlines proper front built [] rest x h e =
    packets_from_ended proper built rest x (ends_packet-append front built [] x h e)
    ∙ ap (λ p. p ∷ packets_from proper [] rest) e
packets_from-newlines proper front built (y ∷ todo) rest x h e =
    packets_from_open proper built (y ∷ (todo ++ rest)) x
      (ends_packet-append front built (y ∷ todo) x h e)
    ∙ packets_from-newlines proper front (built ++ x ∷ []) todo rest y h
        (append_assoc built (x ∷ []) (y ∷ todo) ∙ e)

packets_from-packet :
    (proper : Bool) (front rest : Bytes)
    → EndsFirst front
    → packets_from proper [] ((front ++ newlines) ++ rest)
      ≡ (front ++ newlines) ∷ packets_from proper [] rest
packets_from-packet proper [] rest h = packets_from-newlines proper [] [] (10 ∷ []) rest 10 h refl
packets_from-packet proper (f ∷ front) rest h =
    packets_from-newlines proper (f ∷ front) [] (front ++ newlines) rest f h refl

abbrev packet_in : {A : Type 0} → Result (Bytes × A) → Bytes
packet_in (ok (packet, a)) = packet
packet_in (err e) = []

module _ {O : Type 0} ⦃box : Box O⦄ where
  -- The packet of a message, and the packets of messages one after the other.
  abbrev pub packet_bytes : Message O → Bytes
  packet_bytes m = packet_in (serialize (some m))

  abbrev pub all_bytes : List (Message O) → Bytes
  all_bytes [] = []
  all_bytes (m ∷ ms) = packet_bytes m ++ all_bytes ms

  serialize-packet_bytes : (m : Message O) → serialize (some m) ≡ ok (packet_bytes m, filled m)
  serialize-packet_bytes m = rw (serialize-packet_of m) refl

  packets_from-all_bytes :
      (proper : Bool) (ms : List (Message O))
      → All (λ m. IsPlain m) ms
      → packets_from proper [] (all_bytes ms) ≡ map packet_bytes ms
  unfolding packets_from
  packets_from-all_bytes true [] h = refl
  packets_from-all_bytes false [] h = refl
  packets_from-all_bytes proper (m ∷ ms) (plain, h) =
      let (front, clean, shape) =
        serialize-newlines m (filled m) (packet_bytes m) plain (serialize-packet_bytes m) in
      ap (λ p. packets_from proper [] (p ++ all_bytes ms)) shape
      ∙ packets_from-packet proper front (all_bytes ms) clean
      ∙ ap (λ p. p ∷ packets_from proper [] (all_bytes ms)) (sym shape)
      ∙ ap (λ ps. packet_bytes m ∷ ps) (packets_from-all_bytes proper ms h)

module _ {O D : Type 0} ⦃box : Box O⦄ (blank : Message O) (no_auth : D) (s : Server O D) where
  -- The code for a message of an authorized user: the handler's on what it is decoded to, or ERROR.
  abbrev pub answer_to : Message O → D → ResponseCode
  answer_to m auth_data = elim (lookup (delivered m blank).type s.handlers) [
    | none ↦ error_code
    | some handler ↦ handler (delivered m blank) auth_data
  ]

  -- The codes for messages, with the data of their users.
  abbrev pub answers : List (Message O × D) → List ResponseCode
  answers [] = []
  answers ((m, auth_data) ∷ ms) = answer_to m auth_data ∷ answers ms

  -- The message is plain, and its user is authorized, with the data.
  abbrev pub Welcome : Message O × D → Type 0
  Welcome (m, auth_data) = IsPlain m × IsAccepted no_auth s.auth_fn m.auth auth_data

  decoded_packet :
      (m : Message O) (q : Bytes)
      → IsPlain m
      → q ≡ packet_bytes m
      → deserialize q (some blank) ≡ decoded (delivered m blank)
  decoded_packet m q plain e =
      ap (λ p. deserialize p (some blank)) e
      ∙ deserialize-serialize m (filled m) blank (packet_bytes m) plain (serialize-packet_bytes m)

  decoded_message :
      (m msg : Message O) (q : Bytes)
      → IsPlain m
      → q ≡ packet_bytes m
      → deserialize q (some blank) ≡ decoded msg
      → msg ≡ delivered m blank
  decoded_message m msg q plain e r = let d = decoded_packet m q plain e in cc

  answer_to_unrouted :
      (m : Message O) (d : D)
      → lookup (delivered m blank).type s.handlers ≡ none
      → answer_to m d ≡ error_code
  answer_to_unrouted m d f = rw (f, answer_to) refl

  answer_to_handled :
      (m : Message O) (d : D) (handler : Handler O D)
      → lookup (delivered m blank).type s.handlers ≡ some handler
      → answer_to m d ≡ handler (delivered m blank) d
  answer_to_handled m d handler f = rw (f, answer_to) refl

  Welcome-IsPlain :
      (ms : List (Message O × D)) → All Welcome ms → All (λ m. IsPlain m) (map (λ p. p.0) ms)
  Welcome-IsPlain [] h = tt
  Welcome-IsPlain (m ∷ ms) ((plain, known), h) = (plain, Welcome-IsPlain ms h)

  -- The packets of these messages are all answered.
  Serves-answers :
      (ms : List (Message O × D)) (ps : List Bytes) (next : Control) (acts : List (Act O D))
      → Serves blank no_auth s ps next acts
      → ps ≡ map packet_bytes (map (λ p. p.0) ms)
      → All Welcome ms
      → (next ≡ returns) × (codes acts ≡ answers ms)
  Serves-answers [] _ _ _ finished e h = (refl, refl)
  Serves-answers (m ∷ ms) _ _ _ finished e h = cc
  Serves-answers [] _ _ _ (malformed q ps x r) e h = cc
  Serves-answers ((m, d) ∷ ms) _ _ _ (malformed q ps x r) e ((plain, known), h) =
      let e1 : q ≡ packet_bytes m = cc e in let e2 = decoded_packet m q plain e1 in cc
  Serves-answers [] _ _ _ (crashed q ps r) e h = cc
  Serves-answers ((m, d) ∷ ms) _ _ _ (crashed q ps r) e ((plain, known), h) =
      let e1 : q ≡ packet_bytes m = cc e in let e2 = decoded_packet m q plain e1 in cc
  Serves-answers [] _ _ _ (rejected q ps msg r a) e h = cc
  Serves-answers ((m, d) ∷ ms) _ _ _ (rejected q ps msg r a) e ((plain, known), h) =
      let same = decoded_message m msg q plain (cc e) r in
      absurd (
        IsAccepted-IsRejected no_auth s.auth_fn m.auth d known
          (subst (λ x. IsRejected s.auth_fn x.auth) same a))
  Serves-answers [] _ _ _ (unrouted q ps next acts msg auth_data r a f t) e h = cc
  Serves-answers ((m, d) ∷ ms) _ _ _ (unrouted q ps next acts msg auth_data r a f t) e
        ((plain, known), h) =
      let same = decoded_message m msg q plain (cc e) r in
      let (last, rest) = Serves-answers ms ps next acts t (cc e) h in
      let code = answer_to_unrouted m d (ap (λ x. lookup x.type s.handlers) (sym same) ∙ f) in
      (last, ap₂ (λ x xs. x ∷ xs) (sym code) rest)
  Serves-answers [] _ _ _ (handled q ps next acts msg auth_data handler r a f t) e h = cc
  Serves-answers ((m, d) ∷ ms) _ _ _ (handled q ps next acts msg auth_data handler r a f t) e
        ((plain, known), h) =
      let same = decoded_message m msg q plain (cc e) r in
      let (last, rest) = Serves-answers ms ps next acts t (cc e) h in
      let code =
        answer_to_handled m d handler (ap (λ x. lookup x.type s.handlers) (sym same) ∙ f) in
      let user =
        IsAccepted-unique no_auth s.auth_fn m.auth auth_data d
          (subst (λ x. IsAccepted no_auth s.auth_fn x.auth auth_data) same a) known in
      (last, ap₂ (λ x xs. x ∷ xs) (ap₂ handler same user ∙ sym code) rest)

  -- A client of version 1 that sends one message of plain parts (`IsPlain`) after the other, as a
  -- user who is authorized, gets an answer to each of them: with more fuel than messages, however
  -- their packets are cut into reads and however the stream ends, `HandleConnection` returns; the
  -- codes that it responded with are, in the order of the messages, those of the handlers on the
  -- decoded messages and the users' data, or ERROR where there is no handler; and its writes are
  -- those of the responses, in order, as far as they succeed.
  pub serve_connection-answers :
      (fuel : ℕ) (ms : List (Message O × D)) (w : World)
      → All Welcome ms
      → stream w.conn.incoming ≡ all_bytes (map (λ p. p.0) ms)
      → length ms < fuel
      → (acts : List (Act O D)) × (w' : World) × (serve_connection blank no_auth fuel s w
          ≡ some (returns, acts, w'))
        × (codes acts ≡ answers ms)
        × (w'.conn.trace ≡ w.conn.trace ++ (replies w.conn.write_faults acts ++ close ∷ []))
  serve_connection-answers fuel ms w h arrives lt =
      let ps : packets_of w.conn.incoming ≡ map packet_bytes (map (λ p. p.0) ms) =
        ap (packets_from (is_eof (ending w.conn.incoming)) []) arrives
        ∙ packets_from-all_bytes (is_eof (ending w.conn.incoming)) (map (λ p. p.0) ms)
            (Welcome-IsPlain ms h) in
      let (next, acts, w', run, serves, trace) = serve_connection-Serves blank no_auth fuel s w (
        subst (λ n. n < fuel)
          (sym
            (ap length ps ∙ length-map packet_bytes (map (λ p. p.0) ms) ∙ length-map (λ p. p.0) ms))
          lt) in
      let (last, same) = Serves-answers ms (packets_of w.conn.incoming) next acts serves ps h in
      (acts, w', rw last at run, same, trace)
