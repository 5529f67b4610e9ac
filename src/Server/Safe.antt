-- ===== src/Server/Safe.antt =====
-- What each round of `HandleConnection` keeps, and each registration of a handler.
use atxp.Common.{
  ℕ, ◌≤◌, ◌<◌, ◌≡◌, refl, some, All, All-append, All-map, arith, leb, Bool-cases, Option-cases, inl,
  inr,
}
use atxp.Common.Int.{eq_int}
use atxp.Common.Table.{lookup-insert}
use atxp.Errors.{Result, ok, err}
use atxp.Conn.{World}
use atxp.Crypto.{Cipher}
use atxp.Message.{Box, Message, Mt, ResponseCode, error_code, unauthorized}
use atxp.Frame.{receive_message_frame}
use atxp.Server.{
  Entry, dispatched, replied, Session, Handler, ServerV2, register_handler, find_handler, authorize,
  dispatch, admit, reply, handle_frame, round,
}
use atxp.Server.Spec.{
  answered, noted, Numbered, Numbered-answered, Numbered-handled, Permitted, Permitted-answered,
  authorize_inv,
}

module _ {O D : Type 0} (no_auth : D) (s : ServerV2 O D) where
  -- What holds of a connection at all times.
  abbrev pub IsSafe : Session O D → Type 0
  IsSafe st = Numbered st × All (Permitted no_auth s) st.history

  IsSafe-answered :
      (st : Session O D) (recv : ℕ) (code : ResponseCode)
      → IsSafe st
      → st.recv_seq ≤ recv
      → IsSafe (answered recv code st)
  IsSafe-answered st recv code (numbered, permitted) le = (
    Numbered-answered st recv code numbered le,
    Permitted-answered no_auth s st recv code permitted,
  )

  IsSafe-handled :
      (st : Session O D) (seq : ℕ) (msg : Message O) (auth : D) (handler : Handler O D)
      → IsSafe st
      → st.recv_seq < seq
      → authorize no_auth s.auth_fn msg ≡ some auth
      → find_handler s msg.type ≡ some handler
      → IsSafe (answered seq (handler msg auth) (noted seq msg auth st))
  IsSafe-handled st seq msg auth handler (numbered, permitted) lt a f = (
    Numbered-handled st seq msg auth (handler msg auth) numbered lt,
    Permitted-answered no_auth s (noted seq msg auth st) seq (handler msg auth) (
        All-append (Permitted no_auth s) st.history _ permitted
          ((authorize_inv no_auth s.auth_fn msg auth a, (handler, f)), tt)),
  )

  -- Whatever a round has received, it keeps the connection safe.
  handle_frame-IsSafe :
      (c : Cipher) (r : Result (Message O × ℕ)) (st : Session O D) (w : World)
      → IsSafe st
      → IsSafe (handle_frame no_auth s c r st w).1
  unfolding handle_frame admit dispatch reply
  handle_frame-IsSafe c (err e) st w h = h
  handle_frame-IsSafe c (ok (msg, seq)) st w h = elim (Bool-cases (leb seq st.recv_seq)) [
    | inl replay ↦ rw replay (IsSafe-answered st st.recv_seq error_code h (omega arith))
    | inr new ↦
        let lt : st.recv_seq < seq = ground arith in
        elim (Option-cases (authorize no_auth s.auth_fn msg)) [
          | inl no_entry ↦ rw (new, no_entry) (IsSafe-answered st seq unauthorized h (omega arith))
          | inr (auth, entry) ↦ elim (Option-cases (find_handler s msg.type)) [
            | inl unknown ↦
                rw (new, entry, unknown) (IsSafe-answered st seq error_code h (omega arith))
            | inr (handler, known) ↦
                rw (new, entry, known) (IsSafe-handled st seq msg auth handler h lt entry known)
          ]
        ]
  ]

  pub round-IsSafe :
      ⦃box : Box O⦄ (blank : Message O) (c : Cipher) (st : Session O D) (w : World)
      → IsSafe st
      → IsSafe (round blank no_auth s c st w).1
  unfolding round
  round-IsSafe blank c st w h =
      let (r, w') = receive_message_frame blank c s.v.max_frame_size w in
      handle_frame-IsSafe c r st w' h

module _ {O D : Type 0} (no_auth : D) (s : ServerV2 O D) (t : Mt) (handler : Handler O D) where
  -- A handler that is registered does not unsettle what was done.
  Permitted-register_handler :
      (e : Entry O D) → Permitted no_auth s e → Permitted no_auth (register_handler t handler s) e
  unfolding register_handler find_handler
  Permitted-register_handler (dispatched seq msg auth) (known, (h, found)) = (
    known,
    elim (Bool-cases (eq_int t msg.type)) [
      | inl same ↦ (handler, rw (lookup-insert t msg.type handler s.handlers, same) refl)
      | inr other ↦ (h, rw (lookup-insert t msg.type handler s.handlers, other) found)
    ],
  )
  Permitted-register_handler (replied seq code) h = tt

  pub IsSafe-register_handler :
      (st : Session O D) → IsSafe no_auth s st → IsSafe no_auth (register_handler t handler s) st
  IsSafe-register_handler st (numbered, permitted) =
      (numbered, All-map Permitted-register_handler st.history permitted)
