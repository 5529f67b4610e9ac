-- ===== src/PlainClient/Peers.antt =====
-- What the client and the server of version 1 have come to behind one call and the round that answers
-- it, and behind a list of calls.
use atxp.Common.{
  ℕ, ◌≡◌, refl, ap, ◌∙◌, false, none, some, List, [], ◌∷◌, ◌++◌, length, append_assoc, Option-cases,
  inl, inr, ◌==◌,
}
use atxp.Common.Table.{lookup}
use atxp.Errors.{ok}
use atxp.Wire.{Bytes}
use atxp.Conn.{World, write_bytes}
use atxp.Conn.Stream.{stream}
use atxp.Frame.Transfer.{sent_between}
use atxp.Message.{Box, Message, ResponseCode, error_code}
use atxp.Packet.{serialize, deserialize, decoded}
use atxp.Packet.Laws.{IsPlain, delivered}
use atxp.Decimal.Laws.{IsInt}
use atxp.Transport.{receive, send_packet}
use atxp.Transport.Laws.{receive-send_packet}
use atxp.Response.{send_response}
use atxp.Response.Laws.{receive_response-send_response}
use atxp.PlainServer.{
  continues, Act, handed, responded, Server, check_auth, call_handler, admit_message,
  handle_message, handle_raw, packet_round,
}
use atxp.PlainServer.Spec.{IsAccepted, check_auth-IsAccepted}
use atxp.PlainClient.{Client}
use atxp.PlainClient.Exchange.{
  Request, requested, requested-auth, perform, perform_sent, deserialize-nonempty,
}

module _ {O : Type 0} ⦃box : Box O⦄ where
  send_packet_quiet :
      (m : Message O) (w : World) → (send_packet (some m) w).2.conn.incoming ≡ w.conn.incoming
  unfolding send_packet write_bytes serialize
  send_packet_quiet m w = refl

send_response_quiet :
    (code : ResponseCode) (w : World) → (send_response code w).1.conn.incoming ≡ w.conn.incoming
unfolding send_response write_bytes
send_response_quiet code w = refl

module _ {O D : Type 0} ⦃box : Box O⦄ (blank : Message O) (no_auth : D) (s : Server O D)
    (c : Client) (auth_data : D) where
  -- What the server decodes a call to.
  abbrev got : Request → Message O
  got r = delivered (requested r c) blank

  -- What the server does on a call: it gives the message to the handler of its type and responds with
  -- the handler's code, or responds with ERROR.
  abbrev pub acts_for : Request → List (Act O D)
  acts_for r = elim (lookup (got r).type s.handlers) [
    | none ↦ responded error_code ∷ []
    | some handler ↦ handed (got r) auth_data ∷ responded (handler (got r) auth_data) ∷ []
  ]

  abbrev pub reply_to : Request → ResponseCode
  reply_to r = elim (lookup (got r).type s.handlers) [
    | none ↦ error_code
    | some handler ↦ handler (got r) auth_data
  ]

  abbrev pub all_acts : List Request → List (Act O D)
  all_acts [] = []
  all_acts (r ∷ rs) = acts_for r ++ all_acts rs

  -- The client behind its write, and the server behind its read and behind its response.
  abbrev pub near_sent : Request → World → World
  near_sent r w = (send_packet (some (requested {O = O} r c)) w).2

  abbrev pub far_taken : World → World
  far_taken v = (receive v).1

  abbrev pub far_behind : Request → World → World
  far_behind r v = (send_response (reply_to r) (far_taken v)).1

  -- Each message has plain parts and is sent; the code for it is an `int` of 64 bits, and is sent.
  abbrev pub AllSent : List Request → World → World → Type 0
  AllSent [] w v = Unit
  AllSent (r ∷ rs) w v =
      IsPlain (requested {O = O} r c)
      × ((n : ℕ) × ((send_packet (some (requested {O = O} r c)) w).0 ≡ ok n))
      × IsInt (reply_to r)
      × ((code : ResponseCode) × ((send_response (reply_to r) (far_taken v)).0 ≡ ok code))
      × AllSent rs (perform box r c w).1 (far_behind r v)

  -- The bytes that the client sends, and those that the server sends.
  abbrev pub up_bytes : List Request → World → World → Bytes
  up_bytes [] w v = []
  up_bytes (r ∷ rs) w v =
      sent_between w (near_sent r w) ++ up_bytes rs (perform box r c w).1 (far_behind r v)

  abbrev pub down_bytes : List Request → World → World → Bytes
  down_bytes [] w v = []
  down_bytes (r ∷ rs) w v =
      sent_between (far_taken v) (far_behind r v)
      ++ down_bytes rs (perform box r c w).1 (far_behind r v)

  handle_raw_known :
      (r : Request) (raw : Bytes) (acts : List (Act O D)) (w : World)
      → deserialize raw (some blank) ≡ decoded (got r)
      → check_auth no_auth s.auth_fn (got r).auth ≡ some auth_data
      → handle_raw blank no_auth s (ok raw) acts w
        ≡ (continues, acts ++ acts_for r, (send_response (reply_to r) w).1)
  unfolding handle_raw handle_message admit_message call_handler
  handle_raw_known r raw acts w d a =
      let nonempty : (length raw == 0) ≡ false = deserialize-nonempty blank raw (got r) d in
      elim (Option-cases (lookup (got r).type s.handlers)) [
        | inl lacking ↦ rw (nonempty, d, a, lacking, acts_for, reply_to) refl
        | inr (handler, f) ↦
            rw (nonempty, d, a, f, acts_for, reply_to)
              (ap (λ t. (continues, t, (send_response (handler (got r) auth_data) w).1))
                (append_assoc acts (handed (got r) auth_data ∷ [])
                  (responded (handler (got r) auth_data) ∷ [])))
      ]

  -- One call and the round that answers it.
  pub packet_round-perform :
      (r : Request) (rest more : Bytes) (n : ℕ) (code : ResponseCode) (acts : List (Act O D))
      (w v : World)
      → IsAccepted no_auth s.auth_fn c.auth auth_data
      → IsPlain (requested {O = O} r c)
      → (send_packet (some (requested {O = O} r c)) w).0 ≡ ok n
      → IsInt (reply_to r)
      → (send_response (reply_to r) (far_taken v)).0 ≡ ok code
      → stream v.conn.incoming ≡ sent_between w (near_sent r w) ++ rest
      → stream w.conn.incoming ≡ sent_between (far_taken v) (far_behind r v) ++ more
      → (packet_round blank no_auth s acts v ≡ (continues, acts ++ acts_for r, far_behind r v))
        × ((perform box r c w).0 ≡ ok (reply_to r))
        × (stream (far_behind r v).conn.incoming ≡ rest)
        × (stream (perform box r c w).1.conn.incoming ≡ more)
  unfolding packet_round
  packet_round-perform r rest more n code acts w v known plain sent int replied there here =
      let msg = requested {O = O} r c in
      let unread = send_packet_quiet msg w in
      let (packet, in_full, left, decodes) =
        receive-send_packet msg blank n rest w v plain sent there in
      let (back, remains, _) =
        receive_response-send_response (reply_to r) code more (far_taken v) (near_sent r w) int
          replied (ap stream unread ∙ here) in
      let e = perform_sent box r c w n sent in
      let user =
        ap (λ x. check_auth no_auth s.auth_fn x) (requested-auth box r c)
        ∙ (check_auth-IsAccepted no_auth s.auth_fn c.auth auth_data).1 known in
      (
        rw in_full (handle_raw_known r packet acts (far_taken v) decodes user),
        ap (λ p. p.0) e ∙ back,
        ap stream (send_response_quiet (reply_to r) (far_taken v)) ∙ left,
        ap (λ p. stream p.1.conn.incoming) e ∙ remains,
      )
