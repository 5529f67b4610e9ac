-- ===== src/PlainServer/Loop.antt =====
-- The loop of `HandleConnection` of version 1 does on a stream what its packets call for, and ends.
use atxp.Common.{
  ℕ, zero, suc, ◌<◌, ◌≡◌, refl, false, ap, sym, subst, Option, some, List, [], ◌∷◌, ◌++◌, length,
  ◌==◌, arith, inl, inr,
}
use atxp.Errors.{Result, ok, err}
use atxp.Wire.{Bytes}
use atxp.Conn.{World}
use atxp.Message.{Box, Message, error_code}
use atxp.Packet.{index, Decoded, decoded, refused, panicked, deserialize}
use atxp.Transport.{receive}
use atxp.Transport.Packets.{packets_of, Takes, Unended, receive_loop-Takes, deserialize-Unended}
use atxp.PlainServer.{
  Control, continues, returns, panics, Act, responded, Server, handle_message, handle_raw,
  packet_round, packet_loop,
}
use atxp.PlainServer.Round.{
  Advances, Advances-trans, Advances-none, respond-Advances, Settles, Handles,
  handle_message-Handles,
}
use atxp.PlainServer.Spec.{Serves, finished, malformed, crashed}

module _ {O D : Type 0} ⦃box : Box O⦄ (blank : Message O) (no_auth : D) (s : Server O D) where
  -- What a round has come to, on a stream of the packets `ps`.
  abbrev Goes : List Bytes → World → Control → List (Act O D) → Type 0
  Goes ps w continues one =
      (p : Bytes) × (ps ≡ p ∷ packets_of w.conn.incoming)
      × Settles blank no_auth s p (packets_of w.conn.incoming) continues one
  Goes ps w returns one = Serves blank no_auth s ps returns one
  Goes ps w panics one = Serves blank no_auth s ps panics one

  record Rounds (ps : List Bytes) (acts : List (Act O D)) (w : World)
      (q : Control × List (Act O D) × World) : Type 0 where
    one : List (Act O D)
    advances : Advances w acts q.1 q.2 one
    goes : Goes ps q.2 q.0 one

  -- A packet that has been handled and is followed by another one, or by none.
  Handles-Rounds :
      (p : Bytes) (acts : List (Act O D)) (w : World) (q : Control × List (Act O D) × World)
      → Handles blank no_auth s p (packets_of w.conn.incoming) acts w q
      → Rounds (p ∷ packets_of w.conn.incoming) acts w q
  Handles-Rounds p acts w (continues, acts', w') h = record {
    one = h.one;
    advances = h.advances;
    goes = (
      p,
      ap (λ es. p ∷ packets_of es) (sym h.kept),
      subst (λ es. Settles blank no_auth s p (packets_of es) continues h.one) (sym h.kept)
          h.settles,
    );
  }
  Handles-Rounds p acts w (returns, acts', w') h = record {
    one = h.one;
    advances = h.advances;
    goes = h.settles;
  }
  Handles-Rounds p acts w (panics, acts', w') h = record {
    one = h.one;
    advances = h.advances;
    goes = h.settles;
  }

  -- The last packet, when the stream ends without newlines.
  last-Rounds :
      (d : Decoded (Message O)) (p : Bytes) (acts : List (Act O D)) (w : World)
      → Unended p
      → deserialize p (some blank) ≡ d
      → Rounds (p ∷ []) acts w (handle_message no_auth s d acts w)
  unfolding handle_message
  last-Rounds (decoded msg) p acts w u e = absurd (deserialize-Unended p blank msg u e)
  last-Rounds (refused e) p acts w u h = record {
    one = responded error_code ∷ [];
    advances = respond-Advances returns error_code acts w;
    goes = malformed p [] e h;
  }
  last-Rounds panicked p acts w u h = record {
    one = [];
    advances = Advances-none w w acts refl refl;
    goes = crashed p [] h;
  }

  handle_raw-Rounds :
      (r : Result Bytes) (ps : List Bytes) (acts : List (Act O D)) (w : World)
      → Takes ps r w.conn.incoming
      → Rounds ps acts w (handle_raw blank no_auth s r acts w)
  unfolding handle_raw
  handle_raw-Rounds (err e) ps acts w t = record {
    one = [];
    advances = Advances-none w w acts refl refl;
    goes = subst (λ l. Serves blank no_auth s l returns []) (sym t) finished;
  }
  handle_raw-Rounds (ok []) ps acts w t = record {
    one = [];
    advances = Advances-none w w acts refl refl;
    goes = subst (λ l. Serves blank no_auth s l returns []) (sym t) finished;
  }
  handle_raw-Rounds (ok (x ∷ raw)) ps acts w (inl t) =
      let nonempty : (length (x ∷ raw) == 0) ≡ false = ground arith in
      let q = handle_message no_auth s (deserialize (x ∷ raw) (some blank)) acts w in
      rw nonempty (
        subst (λ l. Rounds l acts w q) (sym t)
          (Handles-Rounds (x ∷ raw) acts w q (
            handle_message-Handles blank no_auth s (deserialize (x ∷ raw) (some blank)) (x ∷ raw)
              (packets_of w.conn.incoming) acts w refl)))
  handle_raw-Rounds (ok (x ∷ raw)) ps acts w (inr (t, u)) =
      let nonempty : (length (x ∷ raw) == 0) ≡ false = ground arith in
      let q = handle_message no_auth s (deserialize (x ∷ raw) (some blank)) acts w in
      rw nonempty (
        subst (λ l. Rounds l acts w q) (sym t)
          (last-Rounds (deserialize (x ∷ raw) (some blank)) (x ∷ raw) acts w u refl))

  packet_round-Rounds :
      (acts : List (Act O D)) (w : World)
      → Rounds (packets_of w.conn.incoming) acts w (packet_round blank no_auth s acts w)
  unfolding packet_round receive index
  packet_round-Rounds acts w =
      let (raw, w1) = receive w in
      let q = handle_raw blank no_auth s raw acts w1 in
      let r =
        handle_raw-Rounds raw (packets_of w.conn.incoming) acts w1
          (receive_loop-Takes [] w.conn.incoming refl) in
      record {
        one = r.one;
        advances =
            Advances-trans w w1 q.2 acts acts q.1 [] r.one (Advances-none w w1 acts refl refl)
              r.advances;
        goes = r.goes;
      }

  -- The loop has ended, with what the packets call for.
  abbrev pub Ends :
      List Bytes → List (Act O D) → World → Option (Control × List (Act O D) × World) → Type 0
  Ends ps acts w o =
      (next : Control) × (acts' : List (Act O D)) × (w' : World) × (one : List (Act O D)) × (o
        ≡ some (next, acts', w'))
      × Advances w acts acts' w' one
      × Serves blank no_auth s ps next one

  Rounds-Ends :
      (o : Option (Control × List (Act O D) × World)) (ps : List Bytes) (acts : List (Act O D))
      (w : World) (q : Control × List (Act O D) × World)
      → Rounds ps acts w q
      → ((p : Bytes)
          → ps ≡ p ∷ packets_of q.2.conn.incoming
          → Ends (packets_of q.2.conn.incoming) q.1 q.2 o)
      → Ends ps acts w (elim q.0 [
        | continues ↦ o
        | returns ↦ some (returns, q.1, q.2)
        | panics ↦ some (panics, q.1, q.2)
      ])
  Rounds-Ends o ps acts w (continues, acts1, w1) r later =
      let (p, first, settles) = r.goes in
      let (next, acts2, w2, more, e, advances, serves) = later p first in
      (
        next,
        acts2,
        w2,
        r.one ++ more,
        e,
        Advances-trans w w1 w2 acts acts1 acts2 r.one more r.advances advances,
        subst (λ l. Serves blank no_auth s l next (r.one ++ more)) (sym first)
            (settles next more serves),
      )
  Rounds-Ends o ps acts w (returns, acts1, w1) r later =
      (returns, acts1, w1, r.one, refl, r.advances, r.goes)
  Rounds-Ends o ps acts w (panics, acts1, w1) r later =
      (panics, acts1, w1, r.one, refl, r.advances, r.goes)

  -- With more fuel than there are packets the loop ends.
  pub packet_loop-Ends :
      (fuel : ℕ) (acts : List (Act O D)) (w : World)
      → length (packets_of w.conn.incoming) < fuel
      → Ends (packets_of w.conn.incoming) acts w (packet_loop blank no_auth fuel s acts w)
  unfolding packet_loop
  packet_loop-Ends zero acts w lt = absurd (omega arith)
  packet_loop-Ends (suc fuel) acts w lt =
      let q = packet_round blank no_auth s acts w in
      Rounds-Ends (packet_loop blank no_auth fuel s q.1 q.2) (packets_of w.conn.incoming) acts w q
        (packet_round-Rounds acts w)
        (λ p first. packet_loop-Ends fuel q.1 q.2 (omega (arith, lt, ap length first)))
