-- ===== src/PlainClient/Dialogue.antt =====
-- client.go and server.go together, for a whole connection: the calls of the client of version 1 one
-- after the other, and `HandleConnection` on the other side.
use atxp.Common.{
  ℕ, zero, suc, ◌<◌, ◌≡◌, refl, ap, ◌∙◌, sym, some, List, [], ◌∷◌, ◌++◌, length, map, append_assoc,
  append-nil, arith,
}
use atxp.Errors.{Result, ok}
use atxp.Conn.{World}
use atxp.Conn.Stream.{stream}
use atxp.Message.{Box, Message, ResponseCode}
use atxp.PlainServer.{returns, Act, Server, packet_loop, with_close, serve_connection}
use atxp.PlainServer.Spec.{IsAccepted}
use atxp.PlainServer.Steps.{packet_loop_last, packet_loop_next}
use atxp.PlainClient.{Client}
use atxp.PlainClient.Peers.{
  AllSent, up_bytes, down_bytes, reply_to, acts_for, all_acts, far_behind, packet_round-perform,
}
use atxp.PlainClient.Exchange.{Request, perform}

module _ {O : Type 0} (box : Box O) where
  -- The calls of the client, one after the other.
  abbrev pub perform_all : List Request → Client → World → List (Result ResponseCode) × World
  perform_all [] c w = ([], w)
  perform_all (r ∷ rs) c w =
      let (code, w') = perform box r c w in
      let (codes, w'') = perform_all rs c w' in (code ∷ codes, w'')

module _ {O D : Type 0} ⦃box : Box O⦄ (blank : Message O) (no_auth : D) (s : Server O D)
    (c : Client) (auth_data : D) where
  perform_all-packet_loop :
      (rs : List Request) (fuel : ℕ) (acts : List (Act O D)) (w v : World)
      → IsAccepted no_auth s.auth_fn c.auth auth_data
      → AllSent blank no_auth s c auth_data rs w v
      → stream v.conn.incoming ≡ up_bytes blank no_auth s c auth_data rs w v
      → stream w.conn.incoming ≡ down_bytes blank no_auth s c auth_data rs w v
      → length rs < fuel
      → ((perform_all box rs c w).0 ≡ map (λ r. ok (reply_to blank no_auth s c auth_data r)) rs)
        × ((v' : World) × (packet_loop blank no_auth fuel s acts v
              ≡ some (returns, acts ++ all_acts blank no_auth s c auth_data rs, v')))
  perform_all-packet_loop rs zero acts w v known work there here lt = absurd (omega arith)
  perform_all-packet_loop [] (suc fuel) acts w v known work there here lt =
      let (v', run) = packet_loop_last blank no_auth s fuel acts v there in
      (refl, (v', run ∙ ap (λ x. some (returns, x, v')) (sym (append-nil acts))))
  perform_all-packet_loop (r ∷ rs) (suc fuel) acts w v known
        (plain, (n, sent), int, (code, replied), work) there here lt =
      let w1 = (perform box r c w).1 in
      let v1 = far_behind blank no_auth s c auth_data r v in
      let (on, back, left, left') =
        packet_round-perform blank no_auth s c auth_data r
          (up_bytes blank no_auth s c auth_data rs w1 v1)
          (down_bytes blank no_auth s c auth_data rs w1 v1) n code acts w v known plain sent int
          replied there here in
      let (results, (v', run)) =
        perform_all-packet_loop rs fuel (acts ++ acts_for blank no_auth s c auth_data r) w1 v1 known
          work left left' (omega arith) in
      (
        ap (λ x. x ∷ (perform_all box rs c w1).0) back
            ∙ ap (λ x. ok (reply_to blank no_auth s c auth_data r) ∷ x) results,
        (
          v',
          packet_loop_next blank no_auth s fuel acts
                (acts ++ acts_for blank no_auth s c auth_data r) v v1 on
              ∙ run
              ∙ ap (λ x. some (returns, x, v'))
                  (append_assoc acts (acts_for blank no_auth s c auth_data r)
                    (all_acts blank no_auth s c auth_data rs)),
        ),
      )

  -- A whole conversation of version 1, on a client whose username and password the server accepts,
  -- with the data. The client makes one call after the other: each message has plain parts (`IsPlain`)
  -- and is sent; the code for it is an `int` of 64 bits, and is sent; the bytes of each side come in
  -- at the other in any pieces. Then every call returns, in the order of the calls, the code of the
  -- handler of its type on the decoded message and the data, or ERROR where there is no handler; and
  -- with more fuel than calls `HandleConnection` returns, having given the messages to the handlers
  -- and responded with their codes in the same order.
  pub perform_all-serve_connection :
      (rs : List Request) (fuel : ℕ) (w v : World)
      → IsAccepted no_auth s.auth_fn c.auth auth_data
      → AllSent blank no_auth s c auth_data rs w v
      → stream v.conn.incoming ≡ up_bytes blank no_auth s c auth_data rs w v
      → stream w.conn.incoming ≡ down_bytes blank no_auth s c auth_data rs w v
      → length rs < fuel
      → ((perform_all box rs c w).0 ≡ map (λ r. ok (reply_to blank no_auth s c auth_data r)) rs)
        × ((v' : World) × (serve_connection blank no_auth fuel s v
              ≡ some (returns, all_acts blank no_auth s c auth_data rs, v')))
  unfolding serve_connection
  perform_all-serve_connection rs fuel w v known work there here lt =
      let (results, (v', run)) = perform_all-packet_loop rs fuel [] w v known work there here lt in
      (results, (_, ap with_close run))
