-- ===== src/Server/Loop.antt =====
-- The loop of `HandleConnection` refines the transition system, and always ends.
use atxp.Common.{
  ℕ, zero, suc, ◌+◌, ◌≤◌, ◌<◌, ◌≡◌, ◌⊎◌, refl, subst, Option, none, some, length, arith, leb,
  leb→le, Bool-cases, Option-cases, inl, inr,
}
use atxp.Errors.{Result, ok, err}
use atxp.Conn.{World, close_conn}
use atxp.Conn.Stream.{stream}
use atxp.Crypto.{Cipher}
use atxp.Message.{Box, Message, ResponseCode, error_code, unauthorized}
use atxp.Frame.{receive_message_frame}
use atxp.Frame.Quiet.{send_response_frame-incoming, receive_message_frame_shorter}
use atxp.Client.{next_seq}
use atxp.Server.{
  Next, go_on, stop, Session, Handler, ServerV2, find_handler, authorize, answer, reply, dispatch,
  admit, handle_frame, round, loop, closed,
}
use atxp.Server.Spec.{Reaches, handled, unrouted, refused, replayed, noted}

pub Next-cases : (n : Next) → (n ≡ go_on) ⊎ (n ≡ stop)
Next-cases go_on = inl refl
Next-cases stop = inr refl

module _ {O D : Type 0} where
  -- A connection that was closed, before it was.
  pub closed_inv :
      (o : Option (Session O D × World)) (q : Session O D × World)
      → closed o ≡ some q
      → (w : World) × (o ≡ some (q.0, w)) × (q.1 ≡ (close_conn w).1)
  closed_inv none q e = cc
  closed_inv (some (st, w)) q e = (w, cc e, cc e)

module _ {O D : Type 0} (no_auth : D) (s : ServerV2 O D) (c : Cipher) where
  dispatch-Reaches :
      (h : Option (Handler O D)) (seq : ℕ) (msg : Message O) (auth : D) (st : Session O D)
      (w : World)
      → Reaches no_auth s go_on st
      → st.recv_seq < seq
      → authorize no_auth s.auth_fn msg ≡ some auth
      → find_handler s msg.type ≡ h
      → let q = dispatch h c s.v.max_frame_size seq msg auth (record st { recv_seq = seq }) w in
        Reaches no_auth s q.0 q.1
  unfolding dispatch reply
  dispatch-Reaches none seq msg auth st w r lt a f = unrouted seq msg auth r lt a f
  dispatch-Reaches (some handler) seq msg auth st w r lt a f = handled seq msg auth handler r lt a f

  admit-Reaches :
      (o : Option D) (seq : ℕ) (msg : Message O) (st : Session O D) (w : World)
      → Reaches no_auth s go_on st
      → st.recv_seq < seq
      → authorize no_auth s.auth_fn msg ≡ o
      → let q = admit o s c seq msg (record st { recv_seq = seq }) w in Reaches no_auth s q.0 q.1
  unfolding admit reply
  admit-Reaches none seq msg st w r lt a = refused seq msg r lt a
  admit-Reaches (some auth) seq msg st w r lt a =
      dispatch-Reaches (find_handler s msg.type) seq msg auth st w r lt a refl

  -- A round from a session that goes on, when a frame came or the read failed.
  handle_frame-Reaches :
      (q : Result (Message O × ℕ)) (st : Session O D) (w : World)
      → Reaches no_auth s go_on st
      → let n = handle_frame no_auth s c q st w in
        (next : Next) × Reaches no_auth s next n.1 × (n.0 ≡ go_on → next ≡ go_on)
  unfolding handle_frame reply
  handle_frame-Reaches (err e) st w r = (go_on, r, λ h. refl)
  handle_frame-Reaches (ok (msg, seq)) st w r = elim (Bool-cases (leb seq st.recv_seq)) [
    | inl replay ↦ rw replay (stop, replayed seq r (leb→le seq st.recv_seq replay), λ h. h)
    | inr new ↦ rw new (
      (admit (authorize no_auth s.auth_fn msg) s c seq msg (record st { recv_seq = seq }) w).0,
      admit-Reaches (authorize no_auth s.auth_fn msg) seq msg st w r (ground arith) refl,
      λ h. h,
    )
  ]

  answer-incoming :
      (next : Next) (code : ResponseCode) (st : Session O D) (w : World)
      → (answer next c s.v.max_frame_size code st w).2.conn.incoming ≡ w.conn.incoming
  unfolding reply
  answer-incoming next code st w =
      send_response_frame-incoming c code (next_seq st.send_seq) s.v.max_frame_size w

  admit-incoming :
      (o : Option D) (seq : ℕ) (msg : Message O) (st : Session O D) (w : World)
      → (admit o s c seq msg st w).2.conn.incoming ≡ w.conn.incoming
  unfolding admit dispatch
  admit-incoming none seq msg st w = answer-incoming stop unauthorized st w
  admit-incoming (some auth) seq msg st w = elim (Option-cases (find_handler s msg.type)) [
    | inl unknown ↦ rw unknown (answer-incoming go_on error_code st w)
    | inr (handler, known) ↦
        rw known (answer-incoming go_on (handler msg auth) (noted seq msg auth st) w)
  ]

  pub handle_frame-incoming :
      (q : Result (Message O × ℕ)) (st : Session O D) (w : World)
      → (handle_frame no_auth s c q st w).2.conn.incoming ≡ w.conn.incoming
  unfolding handle_frame
  handle_frame-incoming (err e) st w = refl
  handle_frame-incoming (ok (msg, seq)) st w = elim (Bool-cases (leb seq st.recv_seq)) [
    | inl replay ↦ rw replay (answer-incoming stop error_code st w)
    | inr new ↦ rw new (admit-incoming (authorize no_auth s.auth_fn msg) seq msg _ w)
  ]

  handle_frame_received :
      (q : Result (Message O × ℕ)) (st : Session O D) (w : World)
      → (handle_frame no_auth s c q st w).0 ≡ go_on
      → (p : Message O × ℕ) × (q ≡ ok p)
  unfolding handle_frame
  handle_frame_received (err e) st w h = cc
  handle_frame_received (ok p) st w h = (p, refl)

  module _ ⦃box : Box O⦄ (blank : Message O) where
    round-Reaches :
        (st : Session O D) (w : World)
        → Reaches no_auth s go_on st
        → let n = round blank no_auth s c st w in
          (next : Next) × Reaches no_auth s next n.1 × (n.0 ≡ go_on → next ≡ go_on)
    unfolding round
    round-Reaches st w r =
        let (q, w') = receive_message_frame blank c s.v.max_frame_size w in
        handle_frame-Reaches q st w' r

    -- Wherever the loop ends, its session is one that the transition system reaches.
    pub loop-Reaches :
        (fuel : ℕ) (st : Session O D) (w : World) (q : Session O D × World)
        → Reaches no_auth s go_on st
        → loop blank no_auth fuel s c st w ≡ some q
        → (next : Next) × Reaches no_auth s next q.0
    unfolding loop
    loop-Reaches zero st w q r h = cc
    loop-Reaches (suc fuel) st w q r h =
        let (n, st', w') = round blank no_auth s c st w in
        let (next, r', k) = round-Reaches st w r in
        elim (Next-cases n) [
          | inl on ↦
              loop-Reaches fuel st' w' q (subst (λ t. Reaches no_auth s t st') (k on) r')
                (rw (on, loop) at h)
          | inr off ↦ (next, subst (λ t. Reaches no_auth s next t) (cc (rw (off, loop) at h)) r')
        ]

    -- A round that goes on has received a frame.
    round_shorter :
        (st : Session O D) (w : World)
        → (round blank no_auth s c st w).0 ≡ go_on
        → length (stream (round blank no_auth s c st w).2.conn.incoming) + 32
          ≤ length (stream w.conn.incoming)
    unfolding round
    round_shorter st w h =
        let (q, w') = receive_message_frame blank c s.v.max_frame_size w in
        let (p, e) = handle_frame_received q st w' h in
        rw (handle_frame-incoming q st w')
          (receive_message_frame_shorter blank c s.v.max_frame_size w p e)

    -- The loop ends on every connection: with more fuel than there are bytes in the stream it has a
    -- result, whatever the frames, the handlers and the failing writes are.
    pub loop_total :
        (fuel : ℕ) (st : Session O D) (w : World)
        → length (stream w.conn.incoming) < fuel
        → (q : Session O D × World) × (loop blank no_auth fuel s c st w ≡ some q)
    unfolding loop
    loop_total zero st w lt = absurd (omega arith)
    loop_total (suc fuel) st w lt =
        let (n, st', w') = round blank no_auth s c st w in
        elim (Next-cases n) [
          | inl on ↦ rw (on, loop) (loop_total fuel st' w' (omega (arith, round_shorter st w on)))
          | inr off ↦ rw (off, loop) ((st', w'), refl)
        ]
