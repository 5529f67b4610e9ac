-- ===== src/Server/Answers.antt =====
-- The server of version 2 answers every message of a client, in order.
use atxp.Common.{
  All, ℕ, zero, suc, ◌<◌, ◌≡◌, refl, ap, sym, ◌∙◌, subst, true, Option, some, [], ◌∷◌, length,
  arith,
}
use atxp.Common.Int.{ℤ, pos, le_int, to_uint32}
use atxp.Errors.{Result, ok, err}
use atxp.Conn.{World, next_fault, close_conn}
use atxp.Conn.Stream.{stream}
use atxp.Conn.Steady.{NoDeadlineFails}
use atxp.Crypto.{Crypto, Cipher}
use atxp.Crypto.Laws.{IsSound}
use atxp.Message.{Box, Message}
use atxp.Envelope.Laws.{received}
use atxp.Frame.{send_message_frame, receive_message_frame, send_response_frame}
use atxp.Endpoint.Handshake.{server_handshake_inv, cipher_from_salt-IsSound}
use atxp.Frame.Quiet.{send_response_frame-incoming, receive_message_frame_shorter}
use atxp.Frame.Transfer.{receive_message_frame-send_message_frame}
use atxp.Endpoint.{server_handshake}
use atxp.Client.{next_seq}
use atxp.Server.{
  Next, go_on, stop, Session, ServerV2, fresh_session, handle_frame, round, loop, closed,
  handle_connection,
}
use atxp.Server.Connection.{server_handshake-incoming}
use atxp.Server.Mail.{
  receive-Steady, send_response_frame-Steady, server_handshake-Steady, Mail, Rising, AllSent,
  mail_bytes, IsWelcome, settled, all_settled, code_of, authorize-IsAuthorized,
  handle_frame-settled, settled-recv_seq,
}

module _ {O D : Type 0} ⦃box : Box O⦄ (no_auth : D) (s : ServerV2 O D) where
  module _ (blank : Message O) (c : Cipher) where
    pub loop_next :
        (fuel : ℕ) (st st' : Session O D) (v v' : World)
        → round blank no_auth s c st v ≡ (go_on, st', v')
        → loop blank no_auth (suc fuel) s c st v ≡ loop blank no_auth fuel s c st' v'
    unfolding loop
    loop_next fuel st st' v v' e = ap (λ q. by_next fuel q) e
      where
        by_next : ℕ → Next × Session O D × World → Option (Session O D × World)
        by_next fuel q = elim q.0 [
          | stop ↦ some (q.1, q.2)
          | go_on ↦ loop blank no_auth fuel s c q.1 q.2
        ]

    -- On an empty stream the loop stops.
    pub loop_last :
        (fuel : ℕ) (st : Session O D) (v : World)
        → stream v.conn.incoming ≡ []
        → (v' : World) × (loop blank no_auth (suc fuel) s c st v ≡ some (st, v'))
    unfolding loop round handle_frame
    loop_last fuel st v h = by_result (receive_message_frame blank c s.v.max_frame_size v).0 refl
      where
        v1 : World
        v1 = (receive_message_frame blank c s.v.max_frame_size v).1

        by_result :
            (r : Result (Message O × ℕ))
            → (receive_message_frame blank c s.v.max_frame_size v).0 ≡ r
            → (v' : World) × (loop blank no_auth (suc fuel) s c st v ≡ some (st, v'))
        by_result (err e) q = (
          v1,
          ap
              (λ r.
                let p = handle_frame no_auth s c r st v1 in
                elim p.0 as (λ _. Option (Session O D × World)) [
                  | stop ↦ some (p.1, p.2)
                  | go_on ↦ loop blank no_auth fuel s c p.1 p.2
                ])
              q,
        )
        by_result (ok p) q = absurd (
            omega
              (arith, ap length h, receive_message_frame_shorter blank c s.v.max_frame_size v p q))

    -- The messages are received and answered, one round for each.
    loop-all_settled :
        (cap : ℤ)
        → IsSound c
        → le_int cap (pos (to_uint32 s.v.max_frame_size)) ≡ true
        → (mail : Mail O D) (fuel : ℕ) (w v : World) (st : Session O D) → length mail < fuel
        → AllSent c cap mail w
        → stream v.conn.incoming ≡ mail_bytes c cap mail w
        → NoDeadlineFails v
        → All (IsWelcome no_auth s) mail
        → Rising st.recv_seq mail
        → (v' : World) × (loop blank no_auth fuel s c st v
            ≡ some (all_settled no_auth s mail st, v'))
    unfolding round
    loop-all_settled limit sound caps mail zero w v st lt sent there calm welcome rising =
        absurd (omega arith)
    loop-all_settled limit sound caps [] (suc fuel) w v st lt sent there calm welcome rising =
        loop_last fuel st v there
    loop-all_settled limit sound caps ((m, seq, auth) ∷ mail) (suc fuel) w v st lt (ok_sent, sent)
          there calm ((fits, known), welcome) (rises, rising) =
        let w1 = (send_message_frame c (some m) seq limit w).1 in
        let v1 = (receive_message_frame blank c s.v.max_frame_size v).1 in
        let (n, e) = ok_sent in
        let (got, left) =
          receive_message_frame-send_message_frame c sound limit s.v.max_frame_size caps m blank seq
            n (mail_bytes c limit mail w1) w v fits e
            (record { arrives = there; works = ap (λ faults. (next_fault faults).0) calm }) in
        let code = code_of no_auth s m auth in
        let handled =
          handle_frame-settled no_auth s c m seq auth st v1 rises
            (authorize-IsAuthorized no_auth s s.auth_fn (received m) auth known) in
        let v2 = (send_response_frame c code (next_seq st.send_seq) s.v.max_frame_size v1).1 in
        let calm' =
          (send_response_frame-Steady c code (next_seq st.send_seq) s.v.max_frame_size).after v1
            ((receive-Steady blank c s.v.max_frame_size).after v calm) in
        let quiet =
          send_response_frame-incoming c code (next_seq st.send_seq) s.v.max_frame_size v1 in
        let (v', run) =
          loop-all_settled limit sound caps mail fuel w1 v2 (settled no_auth s (m, seq, auth) st)
            (omega arith) sent (ap stream quiet ∙ left) calm' welcome
            (subst (λ k. Rising k mail) (sym (settled-recv_seq no_auth s m seq auth st)) rising) in
        (
          v',
          loop_next fuel st (settled no_auth s (m, seq, auth) st) v v2
                (ap (λ r. handle_frame no_auth s c r st v1) got ∙ handled)
              ∙ run,
        )

  -- A client of version 2 that sends one message after the other gets an answer to each of them. The
  -- client's cipher is the one that the handshake of `HandleConnection` comes to; its cap is not above the server's as a uint32; each message fits the widths of the envelope, is sent without
  -- an error, and is of a user who is authorized, with the data; the sequence numbers rise from above
  -- 0; the bytes come in at the server in any pieces, and no deadline call of it fails. Then with more
  -- fuel than messages `HandleConnection` returns, and its session has, in the order of the messages,
  -- called the handler of each with the received message and the data and replied with its code, or
  -- with ERROR where there is no handler, whichever of its writes fail.
  pub handle_connection-all_settled :
      (blank : Message O) (cr : Crypto) (c : Cipher) (limit : ℤ) (mail : Mail O D) (fuel : ℕ)
      (w v : World)
      → (server_handshake cr s.v v).0 ≡ ok c
      → le_int limit (pos (to_uint32 s.v.max_frame_size)) ≡ true
      → AllSent c limit mail w
      → stream v.conn.incoming ≡ mail_bytes c limit mail w
      → NoDeadlineFails v
      → All (IsWelcome no_auth s) mail
      → Rising 0 mail
      → length mail < fuel
      → (v' : World) × (handle_connection blank no_auth cr fuel s v
          ≡ some (all_settled no_auth s mail fresh_session, v'))
  unfolding handle_connection
  handle_connection-all_settled blank cr c limit mail fuel w v shaken caps sent there calm welcome
        rising lt =
      let v1 = (server_handshake cr s.v v).1 in
      let (salt, _, made, _, _) = server_handshake_inv cr s.v v c shaken in
      let sound = cipher_from_salt-IsSound cr s.v salt c made in
      let (v', run) =
        loop-all_settled blank c limit sound caps mail fuel w v1 fresh_session lt sent
          (ap stream (server_handshake-incoming cr s.v v) ∙ there)
          ((server_handshake-Steady cr s.v).after v calm) welcome rising in
      (
        (close_conn v').1,
        ap
              (λ r. elim r as (λ _. Option (Session O D × World)) [
                | err e ↦ closed (some (fresh_session, v1))
                | ok k ↦ closed (loop blank no_auth fuel s k fresh_session v1)
              ])
              shaken
            ∙ ap closed run,
      )
