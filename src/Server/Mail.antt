-- ===== src/Server/Mail.antt =====
-- Mail for the server of version 2, and what one message of it comes to.
use atxp.Common.{
  ℕ, ◌<◌, ◌≡◌, refl, ap, sym, false, Option, none, some, List, [], ◌∷◌, ◌++◌, arith, leb,
  Option-cases, inl, inr,
}
use atxp.Common.Int.{ℤ}
use atxp.Errors.{ok}
use atxp.Wire.{Bytes}
use atxp.Conn.{World}
use atxp.Conn.Steady.{Steady, steady_rules}
use atxp.Crypto.{Crypto, Cipher}
use atxp.Message.{Box, Message, ResponseCode, error_code}
use atxp.Envelope.Layout.{Fits, fields_of}
use atxp.Envelope.Laws.{received}
use atxp.Frame.{
  send_message_frame, receive_message_frame, send_response_frame, read_frame, read_sealed,
  write_frame, write_sealed,
}
use atxp.Frame.Transfer.{sent_between}
use atxp.Endpoint.{V2, server_handshake}
use atxp.Client.{next_seq}
use atxp.Server.{
  go_on, Session, ServerV2, AuthHandlerV2, find_handler, authorize, reply, dispatch, admit,
  handle_frame,
}
use atxp.Server.Spec.{answered, noted, IsAuthorized}

pub receive-Steady :
    {O : Type 0} ⦃box : Box O⦄ (blank : Message O) (c : Cipher) (cap : ℤ)
    → Steady (receive_message_frame blank c cap)
unfolding receive_message_frame read_frame read_sealed
receive-Steady blank c cap = search steady_rules depth 14

pub send_response_frame-Steady :
    (c : Cipher) (code : ResponseCode) (seq : ℕ) (cap : ℤ)
    → Steady (send_response_frame c code seq cap)
unfolding send_response_frame write_frame write_sealed
send_response_frame-Steady c code seq cap = search steady_rules depth 14

pub server_handshake-Steady : (cr : Crypto) (v : V2) → Steady (server_handshake cr v)
unfolding server_handshake
server_handshake-Steady cr v = search steady_rules depth 14

-- What a client sends, one after the other: a message, its sequence number, and the data of its user.
abbrev pub Mail : Type 0 → Type 0 → Type 0
Mail O D = List (Message O × ℕ × D)

module _ {O D : Type 0} where
  -- The sequence numbers rise from above `lo`.
  abbrev pub Rising : ℕ → Mail O D → Type 0
  Rising lo [] = Unit
  Rising lo ((m, seq, auth) ∷ mail) = (lo < seq) × Rising seq mail

module _ {O D : Type 0} ⦃box : Box O⦄ (c : Cipher) (cap : ℤ) where
  -- Each message is sent, on the connection that the one before has left.
  abbrev pub AllSent : Mail O D → World → Type 0
  AllSent [] w = Unit
  AllSent ((m, seq, auth) ∷ mail) w =
      let (r, w') = send_message_frame c (some m) seq cap w in
      ((n : ℕ) × (r ≡ ok n)) × AllSent mail w'

  -- The bytes that go out.
  abbrev pub mail_bytes : Mail O D → World → Bytes
  mail_bytes [] w = []
  mail_bytes ((m, seq, auth) ∷ mail) w =
      let w' = (send_message_frame c (some m) seq cap w).1 in
      sent_between w w' ++ mail_bytes mail w'

module _ {O D : Type 0} ⦃box : Box O⦄ (no_auth : D) (s : ServerV2 O D) where
  -- The message fits the widths of the envelope, and its user is authorized, with the data.
  abbrev pub IsWelcome : Message O × ℕ × D → Type 0
  IsWelcome (m, seq, auth) =
      Fits (fields_of m seq) × IsAuthorized no_auth s.auth_fn (received m) auth

  -- The session behind a message: it has gone to its handler, whose code is the reply; or ERROR is.
  abbrev pub settled : Message O × ℕ × D → Session O D → Session O D
  settled (m, seq, auth) st = elim (find_handler s (received m).type) [
    | none ↦ answered seq error_code st
    | some handler ↦ answered seq (handler (received m) auth) (noted seq (received m) auth st)
  ]

  -- The code of the reply to a message.
  abbrev pub code_of : Message O → D → ResponseCode
  code_of m auth = elim (find_handler s (received m).type) [
    | none ↦ error_code
    | some handler ↦ handler (received m) auth
  ]

  abbrev pub all_settled : Mail O D → Session O D → Session O D
  all_settled [] st = st
  all_settled (m ∷ mail) st = all_settled mail (settled m st)

  pub authorize-IsAuthorized :
      (f : Option (AuthHandlerV2 D)) (m : Message O) (auth : D)
      → IsAuthorized no_auth f m auth
      → authorize no_auth f m ≡ some auth
  unfolding authorize
  authorize-IsAuthorized none m auth h = ap some (sym h)
  authorize-IsAuthorized (some auth_fn) m auth h = rw h refl

  pub handle_frame-settled :
      (c : Cipher) (m : Message O) (seq : ℕ) (auth : D) (st : Session O D) (v : World)
      → st.recv_seq < seq
      → authorize no_auth s.auth_fn (received m) ≡ some auth
      → handle_frame no_auth s c (ok (received m, seq)) st v ≡ (
        go_on,
        settled (m, seq, auth) st,
        (send_response_frame c (code_of m auth) (next_seq st.send_seq) s.v.max_frame_size v).1,
      )
  unfolding handle_frame admit dispatch reply
  handle_frame-settled c m seq auth st v lt a =
      let new : leb seq st.recv_seq ≡ false = ground arith in
      elim (Option-cases (find_handler s (received m).type)) [
        | inl unknown ↦ rw (new, a, unknown, settled, code_of) refl
        | inr (handler, known) ↦ rw (new, a, known, settled, code_of) refl
      ]

  pub settled-recv_seq :
      (m : Message O) (seq : ℕ) (auth : D) (st : Session O D)
      → (settled (m, seq, auth) st).recv_seq ≡ seq
  settled-recv_seq m seq auth st = elim (Option-cases (find_handler s (received m).type)) [
    | inl unknown ↦ rw (unknown, settled) refl
    | inr (handler, known) ↦ rw (known, settled) refl
  ]

  pub settled-send_seq :
      (m : Message O) (seq : ℕ) (auth : D) (st : Session O D)
      → (settled (m, seq, auth) st).send_seq ≡ next_seq st.send_seq
  settled-send_seq m seq auth st = elim (Option-cases (find_handler s (received m).type)) [
    | inl unknown ↦ rw (unknown, settled) refl
    | inr (handler, known) ↦ rw (known, settled) refl
  ]
