-- ===== src/Server/Between.antt =====
-- What holds between the session and world before a run of the loop of `HandleConnection` and those
-- behind it: a relation that holds for each step of a round and can be chained.
use atxp.Common.{ℕ, zero, suc, ◌≡◌, subst, some, leb, Bool-cases, Option-cases, inl, inr}
use atxp.Errors.{Result, ok, err}
use atxp.Conn.{World}
use atxp.Crypto.{Cipher}
use atxp.Message.{Box, Message, ResponseCode, error_code, unauthorized}
use atxp.Frame.{receive_message_frame, send_response_frame}
use atxp.Server.{
  Session, ServerV2, find_handler, authorize, reply, dispatch, admit, handle_frame, round, loop,
}
use atxp.Server.Spec.{noted}
use atxp.Server.Loop.{Next-cases}

-- The steps of a round, and the chain of rounds.
module _ {O D : Type 0} ⦃box : Box O⦄ (blank : Message O) (s : ServerV2 O D) (c : Cipher) where
  pub record Follows (R : Session O D × World → Session O D × World → Type 0) : Type 0 where
    pub same : (p : Session O D × World) → R p p
    pub trans : (p q r : Session O D × World) → R p q → R q r → R p r
    pub receives :
        (st : Session O D) (w : World)
        → R (st, w) (st, (receive_message_frame blank c s.v.max_frame_size w).1)
    pub accepts :
        (st : Session O D) (seq : ℕ) (w : World) → R (st, w) (record st { recv_seq = seq }, w)
    pub notes :
        (st : Session O D) (seq : ℕ) (msg : Message O) (auth : D) (w : World)
        → R (st, w) (noted seq msg auth st, w)
    pub replies :
        (st : Session O D) (code : ResponseCode) (w : World)
        → R (st, w) (reply c s.v.max_frame_size code st w)

module _ {O D : Type 0} ⦃box : Box O⦄ (blank : Message O) (no_auth : D) (s : ServerV2 O D)
    (c : Cipher) (R : Session O D × World → Session O D × World → Type 0)
    (follows : Follows blank s c R) where
  handle_frame_follows :
      (q : Result (Message O × ℕ)) (st : Session O D) (w : World)
      → let r = handle_frame no_auth s c q st w in R (st, w) (r.1, r.2)
  unfolding handle_frame admit dispatch
  handle_frame_follows (err e) st w = follows.same (st, w)
  handle_frame_follows (ok (msg, seq)) st w = elim (Bool-cases (leb seq st.recv_seq)) [
    | inl replay ↦ rw replay (follows.replies st error_code w)
    | inr new ↦
        let st' = record st { recv_seq = seq } in
        let accepted = follows.accepts st seq w in
        elim (Option-cases (authorize no_auth s.auth_fn msg)) [
          | inl no_entry ↦
              rw (new, no_entry)
                (follows.trans (st, w) (st', w) _ accepted (follows.replies st' unauthorized w))
          | inr (auth, entry) ↦ elim (Option-cases (find_handler s msg.type)) [
            | inl unknown ↦
                rw (new, entry, unknown)
                  (follows.trans (st, w) (st', w) _ accepted (follows.replies st' error_code w))
            | inr (handler, known) ↦
                rw (new, entry, known)
                  (follows.trans (st, w) (st', w) _ accepted
                    (follows.trans (st', w) (noted seq msg auth st', w) _
                      (follows.notes st' seq msg auth w)
                      (follows.replies (noted seq msg auth st') (handler msg auth) w)))
          ]
        ]
  ]

  round_follows :
      (st : Session O D) (w : World) → let r = round blank no_auth s c st w in R (st, w) (r.1, r.2)
  unfolding round
  round_follows st w =
      let (q, w') = receive_message_frame blank c s.v.max_frame_size w in
      follows.trans (st, w) (st, w') _ (follows.receives st w) (handle_frame_follows q st w')

  pub loop_follows :
      (fuel : ℕ) (st : Session O D) (w : World) (q : Session O D × World)
      → loop blank no_auth fuel s c st w ≡ some q
      → R (st, w) q
  unfolding loop
  loop_follows zero st w q h = cc
  loop_follows (suc fuel) st w q h =
      let (n, st', w') = round blank no_auth s c st w in
      elim (Next-cases n) [
        | inl on ↦
            follows.trans (st, w) (st', w') q (round_follows st w)
              (loop_follows fuel st' w' q (rw (on, loop) at h))
        | inr off ↦
            subst (R (st, w)) {x = (st', w')} {y = q} (cc (rw (off, loop) at h))
              (round_follows st w)
      ]

-- The same where the relation is on the worlds alone.
module _ {O D : Type 0} (no_auth : D) (s : ServerV2 O D) (c : Cipher) (R : World → World → Type 0)
    (same : (w : World) → R w w)
    (sends : (code : ResponseCode) (seq : ℕ) (w : World)
      → R w (send_response_frame c code seq s.v.max_frame_size w).1)
    (trans : (u v w : World) → R u v → R v w → R u w) ⦃box : Box O⦄ (blank : Message O)
    (receives : (w : World) → R w (receive_message_frame blank c s.v.max_frame_size w).1) where
  between-Follows : Follows blank s c (λ p q. R p.1 q.1)
  unfolding reply
  between-Follows = record {
    same = λ p. same p.1;
    trans = λ p q r h k. trans p.1 q.1 r.1 h k;
    receives = λ st w. receives w;
    accepts = λ st seq w. same w;
    notes = λ st seq msg auth w. same w;
    replies = λ st code w. sends code _ w;
  }

  pub loop_between :
      (fuel : ℕ) (st : Session O D) (w : World) (q : Session O D × World)
      → loop blank no_auth fuel s c st w ≡ some q
      → R w q.1
  loop_between fuel st w q h =
      loop_follows blank no_auth s c (λ p r. R p.1 r.1) between-Follows fuel st w q h
