-- ===== src/Server/Wire.antt =====
-- All that `HandleConnection` puts out on a connection. docs/protocol.md has the header and the
-- frames; docs/security.md asks for a fresh nonce for each frame.
use atxp.Common.{
  ℕ, ◌+◌, ◌<◌, ◌≡◌, refl, sym, ap, subst, ◌∙◌, inl, inr, some, List, [], ◌∷◌, ◌++◌, take, length,
  append_assoc, append-nil,
}
use atxp.Errors.{Result, ok, err}
use atxp.Wire.{Bytes}
use atxp.Conn.{World, Entropy, Call, close, close_conn}
use atxp.Conn.Stream.{stream}
use atxp.Crypto.{Crypto, Cipher, salt_size, gcm_cipher}
use atxp.Message.{Box, Message}
use atxp.Frame.Output.{written, written-append, Frames, Frames-subst}
use atxp.Endpoint.{V2, handshake_header, cipher_from_salt, server_handshake}
use atxp.Endpoint.Output.{next_salt, server_handshake_cases, cipher_from_salt-gcm_cipher}
use atxp.Server.{Session, ServerV2, fresh_session, loop, closed, handle_connection}
use atxp.Server.Loop.{closed_inv}
use atxp.Server.Between.{loop_follows}
use atxp.Server.Output.{reply_plaintexts, Answers, Answers-Follows}
use atxp.Server.Connection.{handle_connection-IsHandled}

-- The plaintexts of the replies of a connection, and what is put out: nothing; the header or a part of
-- it, and then nothing; or the header and frames. The salt in the header is the 16 bytes that stand
-- next in the random source, and the nonces are behind it.
module _ (cr : Crypto) (v : V2) (e : Entropy) where
  pub data Output : List Bytes → List Bytes → Type 0 where
    silent : Output [] []
    header_alone : (n : ℕ) → Output [] (take n (handshake_header (next_salt e)) ∷ [])
    session :
        {plaintexts frames : List Bytes} (a : cr.Aead) (to : ℕ)
        → cipher_from_salt cr v (next_salt e) ≡ ok (gcm_cipher cr a)
        → Frames cr a e.source v.max_frame_size (e.drawn + salt_size) plaintexts frames to
        → Output plaintexts (handshake_header (next_salt e) ∷ frames)

module _ {O D : Type 0} ⦃box : Box O⦄ (blank : Message O) (no_auth : D) (s : ServerV2 O D)
    (cr : Crypto) where
  -- What was put out between two worlds, for the replies of a session.
  abbrev PutsOut : World → Session O D × World → Type 0
  PutsOut w q =
      (calls : List Call) × (q.1.conn.trace ≡ w.conn.trace ++ calls)
      × Output cr s.v w.entropy (reply_plaintexts q.0.history) (written calls)

  closed-PutsOut :
      (w w' : World) (st : Session O D) → PutsOut w (st, w') → PutsOut w (st, (close_conn w').1)
  unfolding close_conn
  closed-PutsOut w w' st (calls, t, h) = (
    calls ++ close ∷ [],
    ap (λ t. t ++ close ∷ []) t ∙ append_assoc w.conn.trace calls (close ∷ []),
    rw (written-append calls (close ∷ []), append-nil (written calls)) h,
  )

  -- A handshake that has put out the header, and a loop behind it.
  joined-PutsOut :
      (a : cr.Aead) (w w1 : World) (q : Session O D × World) (calls : List Call)
      → w1.conn.trace ≡ w.conn.trace ++ calls
      → w1.entropy.source ≡ w.entropy.source
      → w1.entropy.drawn ≡ w.entropy.drawn + salt_size
      → cipher_from_salt cr s.v (next_salt w.entropy) ≡ ok (gcm_cipher cr a)
      → written calls ≡ handshake_header (next_salt w.entropy) ∷ []
      → Answers blank no_auth s cr a (fresh_session, w1) q
      → PutsOut w q
  joined-PutsOut a w w1 q calls t source drawn salted wrote (es, grows, (calls', t', _, frames)) =
      let from_salt =
        Frames-subst cr a s.v.max_frame_size w1.entropy.source w.entropy.source w1.entropy.drawn
          (w.entropy.drawn + salt_size) q.1.entropy.drawn (reply_plaintexts es) (written calls')
          source drawn frames in
      (
        calls ++ calls',
        t' ∙ ap (λ t. t ++ calls') t ∙ append_assoc w.conn.trace calls calls',
        rw (written-append calls calls', wrote, grows)
            (session a q.1.entropy.drawn salted from_salt),
      )

  session-PutsOut :
      (c : Cipher) (fuel : ℕ) (w : World) (q : Session O D × World)
      → (server_handshake cr s.v w).0 ≡ ok c
      → loop blank no_auth fuel s c fresh_session (server_handshake cr s.v w).1 ≡ some q
      → PutsOut w q
  session-PutsOut c fuel w q h run =
      let w1 = (server_handshake cr s.v w).1 in
      let (calls, t, source, drawn, shaken) = server_handshake_cases cr s.v w in
      elim shaken [
        | inl (x, fails, _) ↦ absurd cc
        | inr (c', made, salted, wrote) ↦
            let (a, gcm) = cipher_from_salt-gcm_cipher cr s.v (next_salt w.entropy) c' salted in
            let same : c ≡ gcm_cipher cr a = cc in
            joined-PutsOut a w w1 q calls t source (drawn c' made) (salted ∙ ap (λ x. ok x) gcm)
              wrote
              (loop_follows blank no_auth s (gcm_cipher cr a) (Answers blank no_auth s cr a)
                (Answers-Follows blank no_auth s cr a) fuel fresh_session w1 q
                (subst (λ x. loop blank no_auth fuel s x fresh_session w1 ≡ some q) same run))
      ]

  handshake-PutsOut :
      (w : World)
      → (r : Result Cipher) → (server_handshake cr s.v w).0 ≡ r
      → (fuel : ℕ) (q : Session O D × World)
      → elim r [
        | err x ↦ closed (some (fresh_session, (server_handshake cr s.v w).1))
        | ok c ↦ closed (loop blank no_auth fuel s c fresh_session (server_handshake cr s.v w).1)
      ]
        ≡ some q
      → PutsOut w q
  handshake-PutsOut w (err x) h fuel q e =
      let w1 = (server_handshake cr s.v w).1 in
      let (calls, t, _, _, shaken) = server_handshake_cases cr s.v w in
      let out : Output cr s.v w.entropy [] (written calls) = elim shaken [
        | inl (y, fails, inl nothing) ↦ rw nothing silent
        | inl (y, fails, inr (n, part)) ↦ rw part (header_alone n)
        | inr (c, made, _, _) ↦ absurd cc
      ] in
      let same : q ≡ (fresh_session, (close_conn w1).1) = cc in
      subst (PutsOut w) (sym same) (closed-PutsOut w w1 fresh_session (calls, t, out))
  handshake-PutsOut w (ok c) h fuel q e =
      let w1 = (server_handshake cr s.v w).1 in
      let (w2, run, last) = closed_inv (loop blank no_auth fuel s c fresh_session w1) q e in
      let same : q ≡ (q.0, (close_conn w2).1) = ap (λ w'. (q.0, w')) last in
      subst (PutsOut w) (sym same)
        (closed-PutsOut w w2 q.0 (session-PutsOut c fuel w (q.0, w2) h run))

  -- On every connection, whatever comes in and whichever calls fail: with more fuel than there are
  -- bytes in the stream `HandleConnection` returns, and this is all that it has put out: nothing, and
  -- it has made no reply; or the handshake header or a part of it, and it has made no reply; or the
  -- whole header, and then for each of its replies, in their order, nothing or its frame, whole or
  -- cut. The frame is the length, a nonce and what GCM seals of the response under that nonce and
  -- the connection's key, and it fits the cap. The salt and all the nonces are different stretches of
  -- the random source, each behind the one before, so no random byte is used twice.
  pub handle_connection-Output :
      (fuel : ℕ) (w : World)
      → length (stream w.conn.incoming) < fuel
      → (q : Session O D × World) × (handle_connection blank no_auth cr fuel s w ≡ some q)
        × ((calls : List Call) × (q.1.conn.trace ≡ w.conn.trace ++ calls)
            × Output cr s.v w.entropy (reply_plaintexts q.0.history) (written calls))
  unfolding handle_connection
  handle_connection-Output fuel w lt =
      let (q, e, _) = handle_connection-IsHandled no_auth s blank cr fuel w lt in
      (q, e, handshake-PutsOut w (server_handshake cr s.v w).0 refl fuel q e)
