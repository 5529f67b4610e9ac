-- ===== src/Server/Output.antt =====
-- What `HandleConnection` puts out on its connection, and where its salt and nonces come from.
-- docs/security.md asks for a fresh nonce for each frame.
use atxp.Common.{ℕ, ◌≡◌, refl, sym, ap, ◌∙◌, List, [], ◌∷◌, ◌++◌, arith, append_assoc, append-nil}
use atxp.Common.Int.{ℤ}
use atxp.Wire.{Bytes}
use atxp.Conn.{World, Call}
use atxp.Conn.Trace.{Makes, trace_rules}
use atxp.Crypto.{Crypto, Cipher, gcm_cipher}
use atxp.Message.{Box, Message, ResponseCode}
use atxp.Envelope.{serialize_response_v2}
use atxp.Frame.{write_frame, receive_message_frame, send_response_frame}
use atxp.Frame.Output.{written, Emits, Emits-none, Emits-trans, write_frame-Emits}
use atxp.Frame.Silent.{IsSilent, written-IsSilent, read_frame-IsSilent, read_frame-entropy}
use atxp.Server.{Session, Entry, dispatched, replied, ServerV2, reply}
use atxp.Client.{next_seq}
use atxp.Server.Spec.{noted}
use atxp.Server.Between.{Follows}

module _ {O : Type 0} ⦃box : Box O⦄ where
  receive-IsSilent :
      (blank : Message O) (c : Cipher) (limit : ℤ)
      → Makes IsSilent (receive_message_frame blank c limit)
  unfolding receive_message_frame
  receive-IsSilent blank c limit = search (trace_rules, read_frame-IsSilent)

  receive-entropy :
      (blank : Message O) (c : Cipher) (limit : ℤ) (w : World)
      → (receive_message_frame blank c limit w).1.entropy ≡ w.entropy
  unfolding receive_message_frame
  receive-entropy blank c limit w = ground (arith, read_frame-entropy c limit w)

module _ {O D : Type 0} where
  -- The plaintexts of the replies.
  abbrev pub reply_plaintexts : List (Entry O D) → List Bytes
  reply_plaintexts [] = []
  reply_plaintexts (dispatched seq msg auth ∷ es) = reply_plaintexts es
  reply_plaintexts (replied seq code ∷ es) = serialize_response_v2 code seq ∷ reply_plaintexts es

  reply_plaintexts-append :
      (xs ys : List (Entry O D))
      → reply_plaintexts (xs ++ ys) ≡ reply_plaintexts xs ++ reply_plaintexts ys
  reply_plaintexts-append [] ys = refl
  reply_plaintexts-append (dispatched seq msg auth ∷ xs) ys = reply_plaintexts-append xs ys
  reply_plaintexts-append (replied seq code ∷ xs) ys =
      ap (λ t. serialize_response_v2 code seq ∷ t) (reply_plaintexts-append xs ys)

send_response_frame-world :
    (c : Cipher) (code : ResponseCode) (seq : ℕ) (limit : ℤ) (w : World)
    → (send_response_frame c code seq limit w).1
      ≡ (write_frame c (serialize_response_v2 code seq) limit w).1
unfolding send_response_frame
send_response_frame-world c code seq limit w = ground arith

module _ {O D : Type 0} ⦃box : Box O⦄ (blank : Message O) (no_auth : D) (s : ServerV2 O D)
    (cr : Crypto) where
  -- The entries of the history between two sessions, and what was put out for them.
  abbrev pub Answers : cr.Aead → Session O D × World → Session O D × World → Type 0
  Answers a p q =
      (es : List (Entry O D)) × (q.0.history ≡ p.0.history ++ es)
      × Emits cr a s.v.max_frame_size p.1 (reply_plaintexts es) q.1

  Answers-none :
      (a : cr.Aead) (p q : Session O D × World) (es : List (Entry O D)) (calls : List Call)
      → q.0.history ≡ p.0.history ++ es
      → reply_plaintexts es ≡ []
      → q.1.conn.trace ≡ p.1.conn.trace ++ calls
      → written calls ≡ []
      → q.1.entropy ≡ p.1.entropy
      → Answers a p q
  Answers-none a p q es calls grows quiet t silent same =
      (es, grows, rw quiet (Emits-none cr a s.v.max_frame_size p.1 q.1 calls t silent same))

  pub Answers-Follows : (a : cr.Aead) → Follows blank s (gcm_cipher cr a) (Answers a)
  unfolding reply
  Answers-Follows a =
      let still =
        λ (p : Session O D × World) (q : Session O D × World) (e : q.0.history ≡ p.0.history)
            (f : q.1 ≡ p.1).
          Answers-none a p q [] [] (e ∙ sym (append-nil p.0.history)) refl
            (ap (λ w. w.conn.trace) f ∙ sym (append-nil p.1.conn.trace)) refl
            (ap (λ w. w.entropy) f) in
      record {
        same = λ p. still p p refl refl;
        trans = λ p q r (es, e, h) (es', e', h'). (
          es ++ es',
          e' ∙ ap (λ t. t ++ es') e ∙ append_assoc p.0.history es es',
          rw (reply_plaintexts-append es es') (
              Emits-trans cr a s.v.max_frame_size p.1 q.1 r.1 (reply_plaintexts es)
                (reply_plaintexts es') h h'),
        );
        receives = λ st w.
            let c = gcm_cipher cr a in
            let (calls, t, all) = (receive-IsSilent blank c s.v.max_frame_size).at w in
            Answers-none a (st, w) (st, (receive_message_frame blank c s.v.max_frame_size w).1) []
              calls (sym (append-nil st.history)) refl t (written-IsSilent calls all)
              (receive-entropy blank c s.v.max_frame_size w);
        accepts = λ st seq w. still (st, w) (record st { recv_seq = seq }, w) refl refl;
        notes = λ st seq msg auth w.
            Answers-none a (st, w) (noted seq msg auth st, w) (dispatched seq msg auth ∷ []) [] refl
              refl (sym (append-nil w.conn.trace)) refl refl;
        replies = λ st code w.
            let seq = next_seq st.send_seq in
            let plaintext = serialize_response_v2 code seq in
            (
              replied seq code ∷ [],
              refl,
              rw (send_response_frame-world (gcm_cipher cr a) code seq s.v.max_frame_size w)
                  (write_frame-Emits cr a s.v.max_frame_size plaintext w),
            );
      }
