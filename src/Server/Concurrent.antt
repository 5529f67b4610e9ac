-- ===== src/Server/Concurrent.antt =====
-- The goroutines of `Serve`, in any order: connections are accepted, handlers are registered, and each
-- connection takes one round of its loop after the other. A round reads the handler map, the only state
-- that the goroutines share, once, under the mutex, so that it is one step here.
use atxp.Common.{
  ◌≡◌, refl, ◌∙◌, subst, List, [], ◌∷◌, ◌++◌, All, All-append, All-append_left, All-append_right,
  All-map, arith,
}
use atxp.Errors.{Error, ok, err}
use atxp.Conn.{World, close_conn}
use atxp.Crypto.{Crypto, Cipher}
use atxp.Message.{Box, Message, Mt}
use atxp.Endpoint.{server_handshake}
use atxp.Server.{
  Next, go_on, stop, Session, Handler, ServerV2, fresh_session, register_handler, round,
}
use atxp.Server.Safe.{IsSafe, round-IsSafe, IsSafe-register_handler}

-- A connection whose handshake is done.
pub record Live (O D : Type 0) : Type 0 where
  pub cipher : Cipher
  pub session : Session O D
  pub world : World

-- A server with the connections whose loops run, and what came of those that were closed.
pub record Pool (O D : Type 0) : Type 0 where
  pub server : ServerV2 O D
  pub live : List (Live O D)
  pub done : List (Session O D × World)

module _ {O D : Type 0} ⦃box : Box O⦄ (blank : Message O) (no_auth : D) (cr : Crypto) where
  pub data Step (p : Pool O D) : Pool O D → Type 0 where
    -- RegisterHandler, at any time
    registers :
        (t : Mt) (handler : Handler O D)
        → Step p (record p { server = register_handler t handler p.server })
    -- a connection is accepted, and its handshake
    accepts :
        (w w' : World) (c : Cipher)
        → server_handshake cr p.server.v w ≡ (ok c, w')
        → Step p (record p {
          live = p.live ++ record { cipher = c; session = fresh_session; world = w' } ∷ [];
        })
    turns_away :
        (w w' : World) (e : Error)
        → server_handshake cr p.server.v w ≡ (err e, w')
        → Step p (record p { done = (fresh_session, (close_conn w').1) ∷ p.done })
    -- a round of the loop of some connection
    goes_on :
        (before after : List (Live O D)) (k : Live O D) (st : Session O D) (w : World)
        → p.live ≡ before ++ k ∷ after
        → round blank no_auth p.server k.cipher k.session k.world ≡ (go_on, st, w)
        → Step p (record p { live = before ++ record k { session = st; world = w } ∷ after })
    ends :
        (before after : List (Live O D)) (k : Live O D) (st : Session O D) (w : World)
        → p.live ≡ before ++ k ∷ after
        → round blank no_auth p.server k.cipher k.session k.world ≡ (stop, st, w)
        → Step p (record p { live = before ++ after; done = (st, (close_conn w).1) ∷ p.done })

  -- What may have come of the server.
  pub data Reachable (s : ServerV2 O D) : Pool O D → Type 0 where
    started : Reachable s (record { server = s; live = []; done = [] })
    continued : (p q : Pool O D) → Reachable s p → Step p q → Reachable s q

module _ {O D : Type 0} (no_auth : D) where
  abbrev pub AllSafe : Pool O D → Type 0
  AllSafe p =
      All (λ k. IsSafe no_auth p.server k.session) p.live
      × All (λ d. IsSafe no_auth p.server d.0) p.done

  fresh-IsSafe : (s : ServerV2 O D) → IsSafe no_auth s fresh_session
  fresh-IsSafe s = ((omega arith, refl), tt)

  module _ ⦃box : Box O⦄ (blank : Message O) (cr : Crypto) where
    moved :
        (s : ServerV2 O D) (k : Live O D) (next : Next) (st : Session O D) (w : World)
        → IsSafe no_auth s k.session
        → round blank no_auth s k.cipher k.session k.world ≡ (next, st, w)
        → IsSafe no_auth s st
    moved s k next st w h e =
        subst (λ q. IsSafe no_auth s q.1) e
          (round-IsSafe no_auth s blank k.cipher k.session k.world h)

    -- The safety of a connection that takes a round, and of those beside it.
    parted :
        (s : ServerV2 O D) (live before after : List (Live O D)) (k : Live O D)
        → live ≡ before ++ k ∷ after
        → All (λ j. IsSafe no_auth s j.session) live
        → All (λ j. IsSafe no_auth s j.session) before
          × IsSafe no_auth s k.session
          × All (λ j. IsSafe no_auth s j.session) after
    parted s live before after k split h =
        let P : Live O D → Type 0 = λ j. IsSafe no_auth s j.session in
        let all = subst (λ l. All P l) split h in
        let rest = All-append_right P before (k ∷ after) all in
        (All-append_left P before (k ∷ after) all, rest.0, rest.1)

    Step-AllSafe : (p q : Pool O D) → AllSafe p → Step blank no_auth cr p q → AllSafe q
    Step-AllSafe p _ h (registers t handler) = (
      All-map (λ k. IsSafe-register_handler no_auth p.server t handler k.session) p.live h.0,
      All-map (λ d. IsSafe-register_handler no_auth p.server t handler d.0) p.done h.1,
    )
    Step-AllSafe p _ h (accepts w w' c e) = (
      All-append (λ k. IsSafe no_auth p.server k.session) p.live _ h.0 (fresh-IsSafe p.server, tt),
      h.1,
    )
    Step-AllSafe p _ h (turns_away w w' e r) = (h.0, (fresh-IsSafe p.server, h.1))
    Step-AllSafe p _ h (goes_on before after k st w split e) =
        let (left, own, right) = parted p.server p.live before after k split h.0 in
        (
          All-append (λ j. IsSafe no_auth p.server j.session) before _ left
              (moved p.server k go_on st w own e, right),
          h.1,
        )
    Step-AllSafe p _ h (ends before after k st w split e) =
        let (left, own, right) = parted p.server p.live before after k split h.0 in
        (
          All-append (λ j. IsSafe no_auth p.server j.session) before after left right,
          (moved p.server k stop st w own e, h.1),
        )

    Step-auth_fn :
        (p q : Pool O D) → Step blank no_auth cr p q → q.server.auth_fn ≡ p.server.auth_fn
    unfolding register_handler
    Step-auth_fn p _ (registers t handler) = refl
    Step-auth_fn p _ (accepts w w' c e) = refl
    Step-auth_fn p _ (turns_away w w' e r) = refl
    Step-auth_fn p _ (goes_on before after k st w split e) = refl
    Step-auth_fn p _ (ends before after k st w split e) = refl

    -- A server on which connections are accepted, handlers are registered and the rounds of the
    -- connections are taken in any order, whatever comes in and whichever calls fail: at every moment,
    -- on every connection that is open or was closed, the sequence numbers of the frames that went to
    -- handlers rise strictly, from above 0; the replies are numbered 1, 2, 3 and so on, modulo 2^64;
    -- and every frame that went to a handler was authorized by the function that the server was made
    -- with, with the data that the handler got, and a handler is registered for its type.
    pub Reachable-AllSafe :
        (s : ServerV2 O D) (p : Pool O D)
        → Reachable blank no_auth cr s p
        → AllSafe p × (p.server.auth_fn ≡ s.auth_fn)
    Reachable-AllSafe s _ started = ((tt, tt), refl)
    Reachable-AllSafe s _ (continued p q r step) =
        let (safe, same) = Reachable-AllSafe s p r in
        (Step-AllSafe p q safe step, Step-auth_fn p q step ∙ same)
