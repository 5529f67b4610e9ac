-- ===== src/Network/Delivery.antt =====
-- server_v2.go on such a network: what `HandleConnection` gives to the handlers.
use atxp.Common.{
  ℕ, zero, suc, ◌<◌, ◌≡◌, refl, ap, sym, subst, some, List, [], ◌∷◌, ◌++◌, length, All, All-append,
  map, leb, Bool-cases, Option-cases, inl, inr,
}
use atxp.Common.Subsequence.{IsIn, Subsequence, Ascends, Ascends-Subsequence}
use atxp.Errors.{Result, ok, err}
use atxp.Conn.{World}
use atxp.Conn.Stream.{stream}
use atxp.Conn.Consumes.{arriving, Consumes, consume_rules}
use atxp.Crypto.{Crypto, Cipher}
use atxp.Message.{Box, Message, ResponseCode}
use atxp.Envelope.Layout.{Fits, fields_of}
use atxp.Frame.{read_frame, read_sealed, receive_message_frame}
use atxp.Endpoint.{server_handshake}
use atxp.Server.{
  Session, Entry, dispatched, replied, ServerV2, fresh_session, find_handler, authorize, reply,
  dispatch, admit, handle_frame, round, loop, closed, handle_connection,
}
use atxp.Server.Spec.{Rises, dispatched_seqs}
use atxp.Server.Loop.{Next-cases, handle_frame-incoming, closed_inv}
use atxp.Server.Connection.{server_handshake-incoming}
use atxp.Server.Promises.{handle_connection_seqs}
use atxp.Network.{Unforged, Unforged-rest, seen, receive_message_frame-sent}

module _ {O D : Type 0} where
  -- The messages that went to a handler, with their sequence numbers.
  abbrev pub deliveries : List (Entry O D) → List (ℕ × Message O)
  deliveries [] = []
  deliveries (dispatched seq msg auth ∷ es) = (seq, msg) ∷ deliveries es
  deliveries (replied seq code ∷ es) = deliveries es

  deliveries-append :
      (xs ys : List (Entry O D)) → deliveries (xs ++ ys) ≡ deliveries xs ++ deliveries ys
  deliveries-append [] ys = refl
  deliveries-append (dispatched seq msg auth ∷ xs) ys =
      ap (λ t. (seq, msg) ∷ t) (deliveries-append xs ys)
  deliveries-append (replied seq code ∷ xs) ys = deliveries-append xs ys

  Rises-Ascends :
      (lo hi : ℕ) (es : List (Entry O D))
      → Rises lo (dispatched_seqs es) hi
      → Ascends lo (deliveries es)
  Rises-Ascends lo hi [] h = tt
  Rises-Ascends lo hi (dispatched seq msg auth ∷ es) h = (h.0, Rises-Ascends seq hi es h.1)
  Rises-Ascends lo hi (replied seq code ∷ es) h = Rises-Ascends lo hi es h

seen-Ascends :
    {O : Type 0} ⦃box : Box O⦄ (lo : ℕ) (xs : List (ℕ × Message O))
    → Ascends lo xs
    → Ascends lo (map seen xs)
seen-Ascends lo [] h = tt
seen-Ascends lo ((seq, m) ∷ xs) h = (h.0, seen-Ascends seq xs h.1)

module _ {O D : Type 0} (P : ℕ × Message O → Type 0) where
  replied-All :
      (es : List (Entry O D)) (seq : ℕ) (code : ResponseCode)
      → All P (deliveries es)
      → All P (deliveries (es ++ replied seq code ∷ []))
  replied-All es seq code h = rw deliveries-append (All-append P (deliveries es) [] h tt)

  dispatched-All :
      (es : List (Entry O D)) (seq : ℕ) (msg : Message O) (auth : D)
      → P (seq, msg)
      → All P (deliveries es)
      → All P (deliveries (es ++ dispatched seq msg auth ∷ []))
  dispatched-All es seq msg auth p h =
      rw deliveries-append (All-append P (deliveries es) ((seq, msg) ∷ []) h (p, tt))

  module _ (no_auth : D) (s : ServerV2 O D) (c : Cipher) where
    handle_frame-All :
        (q : Result (Message O × ℕ)) (st : Session O D) (w : World)
        → ((msg : Message O) (seq : ℕ) → q ≡ ok (msg, seq) → P (seq, msg))
        → All P (deliveries st.history)
        → All P (deliveries (handle_frame no_auth s c q st w).1.history)
    unfolding handle_frame admit dispatch reply
    handle_frame-All (err e) st w p h = h
    handle_frame-All (ok (msg, seq)) st w p h = elim (Bool-cases (leb seq st.recv_seq)) [
      | inl replay ↦ rw replay (replied-All st.history _ _ h)
      | inr new ↦ elim (Option-cases (authorize no_auth s.auth_fn msg)) [
        | inl no_entry ↦ rw (new, no_entry) (replied-All st.history _ _ h)
        | inr (auth, entry) ↦ elim (Option-cases (find_handler s msg.type)) [
          | inl unknown ↦ rw (new, entry, unknown) (replied-All st.history _ _ h)
          | inr (handler, known) ↦
              rw (new, entry, known)
                (replied-All (st.history ++ dispatched seq msg auth ∷ []) _ _
                  (dispatched-All st.history seq msg auth (p msg seq refl) h))
        ]
      ]
    ]

module _ {O D : Type 0} ⦃box : Box O⦄ (blank : Message O) (no_auth : D) (s : ServerV2 O D) where
  receive-Consumes : (c : Cipher) → Consumes (receive_message_frame blank c s.v.max_frame_size)
  unfolding receive_message_frame read_frame read_sealed
  receive-Consumes c = search consume_rules depth 14

  module _ (c : Cipher) (sent : List (ℕ × Message O)) (replies : List (ℕ × ResponseCode))
      (fits : All (λ p. Fits (fields_of p.1 p.0)) sent) where
    abbrev Delivered : Session O D → Type 0
    Delivered st = All (λ p. IsIn p (map seen sent)) (deliveries st.history)

    round-Delivered :
        (st : Session O D) (w : World)
        → Unforged c sent replies (arriving w.conn.incoming)
        → Delivered st
        → let q = round blank no_auth s c st w in
          Delivered q.1 × Unforged c sent replies (arriving q.2.conn.incoming)
    unfolding round
    round-Delivered st w u h =
        let (r, w') = receive_message_frame blank c s.v.max_frame_size w in
        let (front, p) = (receive-Consumes c).at w in
        (
          handle_frame-All (λ p. IsIn p (map seen sent)) no_auth s c r st w'
              (λ msg seq e.
                receive_message_frame-sent c sent replies s.v.max_frame_size blank msg seq w fits u
                  e)
              h,
          subst (λ es. Unforged c sent replies (arriving es))
              (sym (handle_frame-incoming no_auth s c r st w'))
              (Unforged-rest c sent replies front (arriving w'.conn.incoming)
                (subst (Unforged c sent replies) p u)),
        )

    loop-Delivered :
        (fuel : ℕ) (st : Session O D) (w : World) (q : Session O D × World)
        → Unforged c sent replies (arriving w.conn.incoming)
        → Delivered st
        → loop blank no_auth fuel s c st w ≡ some q
        → Delivered q.0
    unfolding loop
    loop-Delivered zero st w q u h e = cc
    loop-Delivered (suc fuel) st w q u h e =
        let (n, st', w') = round blank no_auth s c st w in
        let (h', u') = round-Delivered st w u h in
        elim (Next-cases n) [
          | inl on ↦ loop-Delivered fuel st' w' q u' h' (rw (on, loop) at e)
          | inr off ↦ subst Delivered {x = st'} {y = q.0} (cc (rw (off, loop) at e)) h'
        ]

  module _ (cr : Crypto) (sent : List (ℕ × Message O)) (replies : List (ℕ × ResponseCode))
      (fits : All (λ p. Fits (fields_of p.1 p.0)) sent) where
    handle_connection-Delivered :
        (fuel : ℕ) (w : World) (q : Session O D × World)
        → ((c : Cipher)
            → (server_handshake cr s.v w).0 ≡ ok c
            → Unforged c sent replies (arriving w.conn.incoming))
        → handle_connection blank no_auth cr fuel s w ≡ some q
        → All (λ p. IsIn p (map seen sent)) (deliveries q.0.history)
    unfolding handle_connection
    handle_connection-Delivered fuel w q u e = after (server_handshake cr s.v w).0 refl e
      where
        w1 : World
        w1 = (server_handshake cr s.v w).1

        after :
            (r : Result Cipher)
            → (server_handshake cr s.v w).0 ≡ r
            → elim r [
              | err x ↦ closed (some (fresh_session, w1))
              | ok c ↦ closed (loop blank no_auth fuel s c fresh_session w1)
            ]
              ≡ some q
            → All (λ p. IsIn p (map seen sent)) (deliveries q.0.history)
        after (err x) h e' =
            subst (λ st. All (λ p. IsIn p (map seen sent)) (deliveries st.history))
              {x = fresh_session} {y = q.0} (cc e') tt
        after (ok c) h e' =
            let (w2, run, _) = closed_inv (loop blank no_auth fuel s c fresh_session w1) q e' in
            loop-Delivered c sent replies fits fuel fresh_session w1 (q.0, w2)
              (subst (λ es. Unforged c sent replies (arriving es))
                (sym (server_handshake-incoming cr s.v w)) (u c h))
              tt run

    -- A server on a hostile network. The client numbers its messages upwards from above 0, and each
    -- fits the widths of the envelope. Between the peers anyone may drop, repeat, reorder and cut
    -- frames, send responses of the server back to it and add bytes, but not forge: whatever piece of
    -- the incoming bytes opens under the key of the connection was sealed by the client for one of
    -- its messages or by the server for one of its responses. Then, with more fuel than there are
    -- bytes in the stream, `HandleConnection` returns, and the messages that it gave to handlers are
    -- a subsequence of those that the client sent, as the server sees them: none of them is altered,
    -- none comes twice, and their order is that of the client.
    pub handle_connection-Subsequence :
        (fuel : ℕ) (w : World)
        → Ascends 0 sent
        → ((c : Cipher)
            → (server_handshake cr s.v w).0 ≡ ok c
            → Unforged c sent replies (arriving w.conn.incoming))
        → length (stream w.conn.incoming) < fuel
        → (q : Session O D × World) × (handle_connection blank no_auth cr fuel s w ≡ some q)
          × Subsequence (deliveries q.0.history) (map seen sent)
    handle_connection-Subsequence fuel w ascends u lt =
        let (q, e, rises, _) = handle_connection_seqs blank no_auth cr fuel s w lt in
        (
          q,
          e,
          Ascends-Subsequence 0 0 (deliveries q.0.history) (map seen sent)
              (Rises-Ascends 0 q.0.recv_seq q.0.history rises) (seen-Ascends 0 sent ascends)
              (handle_connection-Delivered fuel w q u e),
        )
