-- ===== src/Exchange/Wire.antt =====
-- All that a client of version 2 puts out on its connection behind the handshake.
use atxp.Common.{
  subst, ◌∙◌, inl, inr, ℕ, ◌≡◌, refl, sym, some, List, [], ◌∷◌, ◌++◌, append-nil, arith,
}
use atxp.Common.Int.{ℤ}
use atxp.Errors.{Result, ok, err, Result-cases}
use atxp.Wire.{Bytes}
use atxp.Conn.{World}
use atxp.Conn.Trace.{Makes, trace_rules}
use atxp.Crypto.{Crypto, Cipher, gcm_cipher}
use atxp.Message.{Box, Message, Mt}
use atxp.Envelope.{serialize_v2}
use atxp.Frame.{send_message_frame, receive_response_frame}
use atxp.Frame.Output.{Emits, Emits-none, Emits-trans, write_frame-Emits}
use atxp.Frame.Silent.{IsSilent, written-IsSilent, read_frame-IsSilent, read_frame-entropy}
use atxp.Client.{ClientV2, next_seq, message_of, await_reply, send, send_message}
use atxp.Client.Counters.{send-Counted, accept_reply-world}
use atxp.Exchange.Peers.{Call, numbered, numbered_same}
use atxp.Exchange.Dialogue.{call_all}

-- The plaintext of a message, if it has one.
abbrev pub plaintexts_of : Result Bytes → List Bytes
plaintexts_of (ok bs) = bs ∷ []
plaintexts_of (err e) = []

receive-IsSilent : (c : Cipher) (limit : ℤ) → Makes IsSilent (receive_response_frame c limit)
unfolding receive_response_frame
receive-IsSilent c limit = search (trace_rules, read_frame-IsSilent)

receive-entropy :
    (c : Cipher) (limit : ℤ) (w : World) → (receive_response_frame c limit w).1.entropy ≡ w.entropy
unfolding receive_response_frame
receive-entropy c limit w = ground (arith, read_frame-entropy c limit w)

module _ {O : Type 0} (box : Box O) (cr : Crypto) (a : cr.Aead) where
  send_message_frame-Emits :
      (msg : Message O) (seq : ℕ) (limit : ℤ) (w : World)
      → Emits cr a limit w
          (plaintexts_of (serialize_v2 ⦃box = box⦄ (some msg) seq))
          (send_message_frame ⦃box = box⦄ (gcm_cipher cr a) (some msg) seq limit w).1
  unfolding send_message_frame
  send_message_frame-Emits msg seq limit w =
      elim (Result-cases (serialize_v2 ⦃box = box⦄ (some msg) seq)) [
        | inl (bs, made) ↦ rw made (write_frame-Emits cr a limit bs w)
        | inr (e, fails) ↦
            rw fails (Emits-none cr a limit w w [] (sym (append-nil w.conn.trace)) refl refl)
      ]

  await_reply-Emits :
      (r : Result ℕ) (k : ClientV2) (w : World)
      → Emits cr a k.max_frame_size w [] (await_reply r k w).2
  unfolding await_reply
  await_reply-Emits (err e) k w =
      Emits-none cr a k.max_frame_size w w [] (sym (append-nil w.conn.trace)) refl refl
  await_reply-Emits (ok n) k w =
      let (r, w') = receive_response_frame k.cipher k.max_frame_size w in
      let (calls, t, all) = (receive-IsSilent k.cipher k.max_frame_size).at w in
      rw (accept_reply-world r k w') (
        Emits-none cr a k.max_frame_size w w' calls t (written-IsSilent calls all)
          (receive-entropy k.cipher k.max_frame_size w))

  send_message-Emits :
      (k : ClientV2) (message_type : Mt) (body filename : Bytes) (w : World)
      → k.cipher ≡ gcm_cipher cr a
      → Emits cr a k.max_frame_size w
          (plaintexts_of (
            serialize_v2 ⦃box = box⦄
              (some (message_of ⦃box = box⦄ k message_type body filename))
              (next_seq k.send_seq)))
          (send_message box k message_type body filename w).2
  unfolding send_message send
  send_message-Emits k message_type body filename w gcm =
      let k' = record k { send_seq = next_seq k.send_seq } in
      let msg = message_of ⦃box = box⦄ k message_type body filename in
      let limit = k.max_frame_size in
      let (r, w') = send_message_frame ⦃box = box⦄ k.cipher (some msg) k'.send_seq limit w in
      let sends : Emits cr a limit w
          (plaintexts_of (serialize_v2 ⦃box = box⦄ (some msg) k'.send_seq)) w' =
        rw gcm (send_message_frame-Emits msg k'.send_seq limit w) in
      rw⁻¹ (append-nil (plaintexts_of (serialize_v2 ⦃box = box⦄ (some msg) k'.send_seq)))
        (Emits-trans cr a limit w w' (await_reply r k' w').2 _ [] sends (await_reply-Emits r k' w'))

-- The plaintexts of numbered messages.
module _ {O : Type 0} ⦃box : Box O⦄ where
  abbrev pub envelopes : List (ℕ × Message O) → List Bytes
  envelopes [] = []
  envelopes ((seq, msg) ∷ ms) = plaintexts_of (serialize_v2 (some msg) seq) ++ envelopes ms

module _ {O D : Type 0} (box : Box O) (cr : Crypto) (a : cr.Aead) where
  -- What the calls of a client put out, whose cipher is AES-GCM.
  pub call_all-Emits :
      (calls : List (Call D)) (k : ClientV2) (w : World)
      → k.cipher ≡ gcm_cipher cr a
      → Emits cr a k.max_frame_size w
          (envelopes ⦃box = box⦄ (numbered box calls k))
          (call_all box calls k w).2
  unfolding send_message
  call_all-Emits [] k w gcm =
      Emits-none cr a k.max_frame_size w w [] (sym (append-nil w.conn.trace)) refl refl
  call_all-Emits (call ∷ calls) k w gcm =
      let (r, k', w') = send_message box k call.type call.body call.filename w in
      let k1 = record k { send_seq = next_seq k.send_seq } in
      let limit = k.max_frame_size in
      let counted = send-Counted box k call.type call.body call.filename w in
      let first = send_message-Emits box cr a k call.type call.body call.filename w gcm in
      let others = call_all-Emits calls k' w' (counted.cipher ∙ gcm) in
      let w'' = (call_all box calls k' w').2 in
      Emits-trans cr a limit w w' w'' _ (envelopes ⦃box = box⦄ (numbered box calls k1)) first (
        subst (λ m. Emits cr a m w' (envelopes ⦃box = box⦄ (numbered box calls k1)) w'')
          counted.max_frame_size
          (subst (λ ms. Emits cr a k'.max_frame_size w' (envelopes ⦃box = box⦄ ms) w'')
            (numbered_same box calls k' k1 counted.username counted.send_seq) others))
