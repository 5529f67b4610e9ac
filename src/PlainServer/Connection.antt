-- ===== src/PlainServer/Connection.antt =====
-- `HandleConnection` of version 1 as a whole.
use atxp.Common.{
  ℕ, ◌<◌, ◌≡◌, refl, ap, sym, ◌∙◌, subst, some, List, [], ◌∷◌, ◌++◌, length, append_assoc, true,
}
use atxp.Wire.{Bytes}
use atxp.Conn.{World, close, close_conn}
use atxp.Message.{Box, Message}
use atxp.Packet.{has_prefix, filled, serialize, deserialize, panicked}
use atxp.Packet.Laws.{deserialize_panics}
use atxp.Packet.Parts.{auth_word}
use atxp.Errors.{ok}
use atxp.Transport.Packets.{packets_of}
use atxp.PlainServer.{Control, panics, Act, Server, with_close, serve_connection}
use atxp.PlainServer.Spec.{
  Serves, finished, malformed, crashed, rejected, unrouted, handled, Serves-Orderly, Orderly,
  replies,
}
use atxp.PlainServer.Loop.{packet_loop-Ends}

module _ {O D : Type 0} ⦃box : Box O⦄ (blank : Message O) (no_auth : D) where
  -- Version 1, on every connection, whatever comes in and whichever calls fail: with more fuel than
  -- there are packets in the stream `HandleConnection` ends. What it has done, and whether it returned
  -- or panicked, is what the packets of the stream call for one after the other, however they are cut
  -- into reads; its calls of `Write` are those of the responses, in order, as far as they succeed, and
  -- its last call closes the connection.
  pub serve_connection-Serves :
      (fuel : ℕ) (s : Server O D) (w : World)
      → length (packets_of w.conn.incoming) < fuel
      → (next : Control) × (acts : List (Act O D)) × (w' : World) × (serve_connection blank no_auth
            fuel s w
          ≡ some (next, acts, w'))
        × Serves blank no_auth s (packets_of w.conn.incoming) next acts
        × (w'.conn.trace ≡ w.conn.trace ++ (replies w.conn.write_faults acts ++ close ∷ []))
  unfolding serve_connection close_conn
  serve_connection-Serves fuel s w lt =
      let (next, acts, w', one, e, advances, serves) =
        packet_loop-Ends blank no_auth s fuel [] w lt in
      (
        next,
        acts,
        (close_conn w').1,
        ap with_close e,
        subst (λ a. Serves blank no_auth s (packets_of w.conn.incoming) next a) (sym advances.grown)
            serves,
        ap (λ t. t ++ close ∷ []) advances.written
            ∙ append_assoc w.conn.trace (replies w.conn.write_faults one) (close ∷ [])
            ∙ ap (λ a. w.conn.trace ++ (replies w.conn.write_faults a ++ close ∷ []))
                (sym advances.grown),
      )

  -- Version 1, on every connection, whatever comes in and whichever calls fail: with more fuel than
  -- there are packets in the stream `HandleConnection` ends; every message that it gave to a handler
  -- was authorized by its username and password, with the data that the handler got (the zero value if
  -- there is no authorization function), the handler was the one registered for its type, and the
  -- handler's code was what it responded next.
  pub serve_connection-Orderly :
      (fuel : ℕ) (s : Server O D) (w : World)
      → length (packets_of w.conn.incoming) < fuel
      → (next : Control) × (acts : List (Act O D)) × (w' : World) × (serve_connection blank no_auth
            fuel s w
          ≡ some (next, acts, w'))
        × Orderly no_auth s acts
  serve_connection-Orderly fuel s w lt =
      let (next, acts, w', e, serves, _) = serve_connection-Serves fuel s w lt in
      (
        next,
        acts,
        w',
        e,
        Serves-Orderly no_auth s blank (packets_of w.conn.incoming) next acts serves,
      )

  Serves-panicked :
      (s : Server O D) (p : Bytes) (ps more : List Bytes) (next : Control) (acts : List (Act O D))
      → Serves blank no_auth s ps next acts
      → ps ≡ p ∷ more
      → deserialize p (some blank) ≡ panicked
      → (next ≡ panics) × (acts ≡ [])
  Serves-panicked s p _ more _ _ finished e h = cc
  Serves-panicked s p _ more _ _ (malformed q ps x r) e h = cc
  Serves-panicked s p _ more _ _ (crashed q ps r) e h = (refl, refl)
  Serves-panicked s p _ more _ _ (rejected q ps msg r a) e h = cc
  Serves-panicked s p _ more _ _ (unrouted q ps next acts msg auth_data r a f t) e h = cc
  Serves-panicked s p _ more _ _ (handled q ps next acts msg auth_data handler r a f t) e h = cc

  -- A connection of version 1 whose first packet is the one that Serialize makes of a message whose
  -- data begins with "Auth:" ends in a panic of `HandleConnection`, whatever else comes in and whoever
  -- sent it: it is not answered and not checked for authorization, and the connection is closed.
  pub serve_connection_panics :
      (fuel : ℕ) (s : Server O D) (w : World) (m m' : Message O) (packet : Bytes)
      (more : List Bytes)
      → length (packets_of w.conn.incoming) < fuel
      → packets_of w.conn.incoming ≡ packet ∷ more
      → has_prefix (box.get (filled m).body) auth_word ≡ true
      → serialize (some m) ≡ ok (packet, m')
      → (w' : World) × (serve_connection blank no_auth fuel s w ≡ some (panics, [], w'))
        × (w'.conn.trace ≡ w.conn.trace ++ close ∷ [])
  serve_connection_panics fuel s w m m' packet more lt first h e =
      let (next, acts, w', run, serves, trace) = serve_connection-Serves fuel s w lt in
      let (crash, quiet) =
        Serves-panicked s packet (packets_of w.conn.incoming) more next acts serves first
          (deserialize_panics m m' blank packet h e) in
      (w', rw (crash, quiet) at run, rw quiet at trace)
