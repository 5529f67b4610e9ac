-- ===== src/Server/Fuel.antt =====
-- The fuel of `HandleConnection` only bounds its loop.
use atxp.Common.{ℕ, zero, suc, ◌<◌, ◌≡◌, refl, ap, sym, ◌∙◌, subst, Option, some, length, inl, inr}
use atxp.Errors.{Result, ok, err}
use atxp.Conn.{World}
use atxp.Conn.Stream.{stream}
use atxp.Crypto.{Crypto, Cipher}
use atxp.Message.{Box, Message}
use atxp.Endpoint.{server_handshake}
use atxp.Server.{Session, ServerV2, round, loop, closed, fresh_session, handle_connection}
use atxp.Server.Loop.{Next-cases, loop_total}
use atxp.Server.Connection.{server_handshake-incoming}

module _ {O D : Type 0} ⦃box : Box O⦄ (blank : Message O) (no_auth : D) (s : ServerV2 O D) where
  -- Two runs that do not run out of fuel have the same result.
  loop_agrees :
      (c : Cipher) (fuel fuel' : ℕ) (st : Session O D) (w : World) (q q' : Session O D × World)
      → loop blank no_auth fuel s c st w ≡ some q
      → loop blank no_auth fuel' s c st w ≡ some q'
      → q ≡ q'
  unfolding loop
  loop_agrees c zero fuel' st w q q' e e' = cc
  loop_agrees c (suc fuel) zero st w q q' e e' = cc
  loop_agrees c (suc fuel) (suc fuel') st w q q' e e' =
      let (next, st', w') = round blank no_auth s c st w in
      elim (Next-cases next) [
        | inl on ↦ loop_agrees c fuel fuel' st' w' q q' (rw (on, loop) at e) (rw (on, loop) at e')
        | inr off ↦ let f = rw (off, loop) at e in let f' = rw (off, loop) at e' in cc
      ]

  loop_settles :
      (c : Cipher) (fuel fuel' : ℕ) (st : Session O D) (w : World)
      → length (stream w.conn.incoming) < fuel
      → length (stream w.conn.incoming) < fuel'
      → (q : Session O D × World) × (loop blank no_auth fuel s c st w ≡ some q)
        × (loop blank no_auth fuel' s c st w ≡ some q)
  loop_settles c fuel fuel' st w lt lt' =
      let (q, e) = loop_total no_auth s c blank fuel st w lt in
      let (q', e') = loop_total no_auth s c blank fuel' st w lt' in
      (q, e, e' ∙ ap some (sym (loop_agrees c fuel fuel' st w q q' e e')))

  -- `HandleConnection` ends on every connection, whatever comes in and whichever calls fail, and the
  -- fuel of the model does not show: with two amounts of fuel that are each above the number of bytes
  -- in the stream it has one and the same result.
  pub handle_connection_settles :
      (cr : Crypto) (fuel fuel' : ℕ) (w : World)
      → length (stream w.conn.incoming) < fuel
      → length (stream w.conn.incoming) < fuel'
      → (q : Session O D × World) × (handle_connection blank no_auth cr fuel s w ≡ some q)
        × (handle_connection blank no_auth cr fuel' s w ≡ some q)
  unfolding handle_connection
  handle_connection_settles cr fuel fuel' w lt lt' = after (server_handshake cr s.v w).0
    where
      w1 : World
      w1 = (server_handshake cr s.v w).1

      after :
          (r : Result Cipher)
          → let run : ℕ → Option (Session O D × World) = λ f. elim r [
            | err e ↦ closed (some (fresh_session, w1))
            | ok c ↦ closed (loop blank no_auth f s c fresh_session w1)
          ] in
            (q : Session O D × World) × (run fuel ≡ some q) × (run fuel' ≡ some q)
      after (err e) = (_, refl, refl)
      after (ok c) =
          let quiet = sym (server_handshake-incoming cr s.v w) in
          let (q, e, e') =
            loop_settles c fuel fuel' fresh_session w1
              (subst (λ es. length (stream es) < fuel) quiet lt)
              (subst (λ es. length (stream es) < fuel') quiet lt') in
          (_, ap closed e, ap closed e')
