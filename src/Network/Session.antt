-- ===== src/Network/Session.antt =====
-- A client and a server of version 2 with a hostile network between them, for a whole connection.
use atxp.Common.{ℕ, ◌+◌, ◌^◌, ◌<◌, ◌≡◌, some, List, [], ◌∷◌, length, All, map, subst, arith}
use atxp.Common.Subsequence.{Subsequence, Ascends, Ascends-mono}
use atxp.Errors.{ok}
use atxp.Conn.{World}
use atxp.Conn.Stream.{stream}
use atxp.Conn.Consumes.{arriving}
use atxp.Crypto.{Crypto}
use atxp.Message.{Box, Message, ResponseCode}
use atxp.Envelope.Layout.{Fits, fields_of}
use atxp.Endpoint.{server_handshake}
use atxp.Client.{ClientV2, next_seq}
use atxp.Server.{Session, Entry, dispatched, replied, ServerV2, handle_connection}
use atxp.Server.Spec.{Counts, reply_seqs}
use atxp.Server.Promises.{handle_connection_seqs}
use atxp.Exchange.Peers.{Call, numbered}
use atxp.Exchange.Dialogue.{call_all}
use atxp.Network.{Unforged, seen}
use atxp.Network.Delivery.{deliveries, handle_connection-Subsequence}
use atxp.Network.Replies.{accepted, code_seen, call_all-Subsequence}

module _ {O D : Type 0} (box : Box O) where
  numbered-Ascends :
      (calls : List (Call D)) (k : ClientV2)
      → k.send_seq + length calls < 2 ^ 64
      → Ascends k.send_seq (numbered box calls k)
  numbered-Ascends [] k room = tt
  numbered-Ascends (call ∷ calls) k room = (
    omega arith,
    numbered-Ascends calls (record k { send_seq = next_seq k.send_seq }) (omega arith),
  )

module _ {O D : Type 0} where
  -- The responses of a server, with their sequence numbers.
  abbrev pub responses : List (Entry O D) → List (ℕ × ResponseCode)
  responses [] = []
  responses (dispatched seq msg auth ∷ es) = responses es
  responses (replied seq code ∷ es) = (seq, code) ∷ responses es

  Counts-Ascends :
      (lo hi : ℕ) (es : List (Entry O D))
      → Counts lo (reply_seqs es) hi
      → lo + length (responses es) < 2 ^ 64
      → Ascends lo (responses es) × All (λ r. r.0 < 2 ^ 64) (responses es)
  Counts-Ascends lo hi [] h room = (tt, tt)
  Counts-Ascends lo hi (dispatched seq msg auth ∷ es) h room = Counts-Ascends lo hi es h room
  Counts-Ascends lo hi (replied seq code ∷ es) (e, h) room =
      let (ascends, narrow) = Counts-Ascends seq hi es h (omega arith) in
      ((omega arith, ascends), (omega arith, narrow))

module _ {O D : Type 0} ⦃box : Box O⦄ (blank : Message O) (no_auth : D) (s : ServerV2 O D)
    (cr : Crypto) where
  -- What the network owes a conversation that ends with the session `st`: what opens on either side
  -- is one of the client's messages or one of the server's responses.
  pub record Authentic (calls : List (Call D)) (k : ClientV2) (near far : World) (st : Session O D)
      : Type 0 where
    pub room : length (responses st.history) < 2 ^ 64
    pub at_server :
        Unforged {O = O} k.cipher
          (numbered box calls k)
          (responses st.history)
          (arriving far.conn.incoming)
    pub at_client :
        Unforged {O = O} k.cipher
          (numbered box calls k)
          (responses st.history)
          (arriving near.conn.incoming)

  -- A whole connection over a hostile network. The server's handshake has given the cipher that the
  -- client has; the client makes calls one after the other, whose messages fit the widths of the
  -- envelope, and neither side sends 2^64 frames. In both directions anyone may drop, repeat,
  -- reorder, cut and reflect frames and add bytes, and reads and writes may fail, but no frame is
  -- forged (`Authentic`). Then, with more fuel than there are bytes in its stream, the server's
  -- `HandleConnection` returns; the messages that its handlers got are a subsequence of those of the
  -- client's calls, as the server sees them; and the codes that the client's calls return are a
  -- subsequence of those of the server's responses, as uint32s.
  pub call_all-handle_connection :
      (calls : List (Call D)) (k : ClientV2) (fuel : ℕ) (near far : World)
      → (server_handshake cr s.v far).0 ≡ ok k.cipher
      → k.send_seq + length calls < 2 ^ 64
      → All (λ p. Fits (fields_of {O = O} p.1 p.0)) (numbered box calls k)
      → length (stream far.conn.incoming) < fuel
      → ((st : Session O D) (w : World)
          → handle_connection blank no_auth cr fuel s far ≡ some (st, w)
          → Authentic calls k near far st)
      → (q : Session O D × World) × (handle_connection blank no_auth cr fuel s far ≡ some q)
        × Subsequence (deliveries q.0.history) (map (seen {O = O}) (numbered box calls k))
        × Subsequence
            (accepted (call_all box calls k near).0)
            (map code_seen (responses q.0.history))
  call_all-handle_connection calls k fuel near far shaken room fits lt authentic =
      let (q, e, rises, counts) = handle_connection_seqs blank no_auth cr fuel s far lt in
      let a = authentic q.0 q.1 e in
      let (ascends, narrow) =
        Counts-Ascends 0 q.0.send_seq q.0.history counts (omega (arith, a.room)) in
      let (q', e', delivered) =
        handle_connection-Subsequence blank no_auth s cr (numbered box calls k)
          (responses q.0.history) fits fuel far
          (Ascends-mono 0 k.send_seq (numbered box calls k) (omega arith)
            (numbered-Ascends box calls k room))
          (λ c h.
            let same : k.cipher ≡ c = cc (shaken, h) in
            subst
              (λ t.
                Unforged t (numbered box calls k) (responses q.0.history)
                  (arriving far.conn.incoming))
              same a.at_server)
          lt in
      let same : q' ≡ q = cc (e, e') in
      (
        q,
        e,
        subst
            (λ t. Subsequence (deliveries t.0.history) (map (seen {O = O}) (numbered box calls k)))
            same delivered,
        call_all-Subsequence (numbered box calls k) (responses q.0.history) narrow calls k 0 near
            ascends a.at_client,
      )
