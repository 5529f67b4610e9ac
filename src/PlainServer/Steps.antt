-- ===== src/PlainServer/Steps.antt =====
-- One step of the loop of `HandleConnection` of version 1, and its end on an empty stream.
use atxp.Common.{
  ℕ, suc, ◌<◌, ◌≡◌, refl, ap, ◌∙◌, sym, subst, Bool, true, false, some, List, [], ◌++◌, length,
  append-nil, arith,
}
use atxp.Wire.{Bytes}
use atxp.Conn.{World}
use atxp.Conn.Stream.{stream, ending}
use atxp.Message.{Box, Message}
use atxp.Transport.Packets.{is_eof, packets_from, packets_of}
use atxp.PlainServer.{Control, continues, returns, panics, Act, Server, packet_round, packet_loop}
use atxp.PlainServer.Spec.{Serves, finished, malformed, crashed, rejected, unrouted, handled}
use atxp.PlainServer.Loop.{packet_loop-Ends}

packets_from_nil : (proper : Bool) → packets_from proper [] [] ≡ []
unfolding packets_from
packets_from_nil true = refl
packets_from_nil false = refl

module _ {O D : Type 0} ⦃box : Box O⦄ (blank : Message O) (no_auth : D) (s : Server O D) where
  Serves-none :
      (ps : List Bytes) (next : Control) (acts : List (Act O D))
      → Serves blank no_auth s ps next acts
      → ps ≡ []
      → (next ≡ returns) × (acts ≡ [])
  Serves-none _ _ _ finished e = (refl, refl)
  Serves-none _ _ _ (malformed p ps x r) e = cc
  Serves-none _ _ _ (crashed p ps r) e = cc
  Serves-none _ _ _ (rejected p ps msg r a) e = cc
  Serves-none _ _ _ (unrouted p ps next acts msg auth r a f t) e = cc
  Serves-none _ _ _ (handled p ps next acts msg auth handler r a f t) e = cc

  -- The loop returns when the client has sent all.
  pub packet_loop_last :
      (fuel : ℕ) (acts : List (Act O D)) (v : World)
      → stream v.conn.incoming ≡ []
      → (v' : World) × (packet_loop blank no_auth (suc fuel) s acts v ≡ some (returns, acts, v'))
  packet_loop_last fuel acts v h =
      let none_left =
        ap (packets_from (is_eof (ending v.conn.incoming)) []) h
        ∙ packets_from_nil (is_eof (ending v.conn.incoming)) in
      let (next, acts', v', one, e, advances, serves) =
        packet_loop-Ends blank no_auth s (suc fuel) acts v
          (subst (λ ps. length ps < suc fuel) (sym none_left) (omega arith)) in
      let (ends, quiet) = Serves-none (packets_of v.conn.incoming) next one serves none_left in
      (
        v',
        e
            ∙ ap (λ x. some (x, acts', v')) ends
            ∙ ap (λ x. some (returns, x, v'))
                (advances.grown ∙ ap (λ x. acts ++ x) quiet ∙ append-nil acts),
      )

  pub packet_loop_next :
      (fuel : ℕ) (acts acts' : List (Act O D)) (v v' : World)
      → packet_round blank no_auth s acts v ≡ (continues, acts', v')
      → packet_loop blank no_auth (suc fuel) s acts v ≡ packet_loop blank no_auth fuel s acts' v'
  unfolding packet_loop
  packet_loop_next fuel acts acts' v v' h =
      ap
        (λ q. elim q.0 [
          | continues ↦ packet_loop blank no_auth fuel s q.1 q.2
          | returns ↦ some (returns, q.1, q.2)
          | panics ↦ some (panics, q.1, q.2)
        ])
        h
