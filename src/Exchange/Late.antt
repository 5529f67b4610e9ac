-- ===== src/Exchange/Late.antt =====
-- client_v2.go: a response that comes in after its call has failed.
use atxp.Common.{ℕ, ◌+◌, ◌^◌, ◌<◌, ◌≤◌, ◌≡◌, refl, ap, ◌∙◌, true, List, [], ◌∷◌, ◌++◌, arith}
use atxp.Common.Int.{ℤ, pos, le_int, to_uint32}
use atxp.Errors.{Error, ok, err, wrap}
use atxp.Wire.{Bytes}
use atxp.Conn.{World, Event, fail, next_fault, arm_read, read_full, read_loop}
use atxp.Conn.Stream.{stream}
use atxp.Conn.Steady.{NoDeadlineFails}
use atxp.Crypto.{Cipher}
use atxp.Crypto.Laws.{IsSound}
use atxp.Message.{Box, Message, ResponseCode}
use atxp.Frame.{read_frame, send_response_frame, receive_response_frame}
use atxp.Frame.Read.{DeadlineWorks}
use atxp.Frame.Transfer.{sent_between, receive_response_frame-send_response_frame}
use atxp.Client.{ClientV2, next_seq, message_of, await_reply, accept_reply, send, send_message}
use atxp.Exchange.{send_answered, sending}
use atxp.Exchange.Peers.{
  Call, send_message_frame-Steady, receive_response_frame-Steady, send_message_frame-incoming,
}
use atxp.Exchange.Dialogue.{call_all}

-- The read of a response fails with the error of the connection.
receive_response_frame_fails :
    (c : Cipher) (cap : ℤ) (w : World) (e : Error) (es : List Event)
    → DeadlineWorks w
    → w.conn.incoming ≡ fail e ∷ es
    → ((receive_response_frame c cap w).0 ≡ err e)
      × ((receive_response_frame c cap w).1.conn.incoming ≡ es)
unfolding receive_response_frame read_frame arm_read read_full read_loop
receive_response_frame_fails c cap w e es works h = (rw (works, h) refl, rw (works, h) refl)

-- The client when a call has failed in its read.
abbrev pub left_behind : ClientV2 → ClientV2
left_behind k = record k { send_seq = next_seq k.send_seq }

module _ {O D : Type 0} (box : Box O) where
  abbrev pub message_for : Call D → ClientV2 → Message O
  message_for call k = message_of ⦃box = box⦄ k call.type call.body call.filename

  -- The world behind the write of a call, and behind the read that fails.
  abbrev pub world_asked : Call D → ClientV2 → World → World
  world_asked call k w = (sending ⦃box = box⦄ k (message_for call k) w).1

  abbrev pub world_failed : Call D → ClientV2 → World → World
  world_failed call k w =
      (receive_response_frame k.cipher k.max_frame_size (world_asked call k w)).1

  send_fails :
      (call : Call D) (k : ClientV2) (w : World) (n : ℕ) (e : Error)
      → (sending ⦃box = box⦄ k (message_for call k) w).0 ≡ ok n
      → (receive_response_frame k.cipher k.max_frame_size (world_asked call k w)).0 ≡ err e
      → send box k call.type call.body call.filename w
        ≡ (err (wrap "atxp.ClientV2.send" e), left_behind k, world_failed call k w)
  unfolding send await_reply accept_reply
  send_fails call k w n e sent got = rw (sent, got) refl

  -- A response that is late is taken for that of the next call. A client has a sound cipher, has taken
  -- no response with a greater number than it has made calls, which are fewer than 2^64 - 1, and no
  -- deadline call fails; the server's cap is not above the client's as a uint32. The client's call
  -- `a` is sent and its read fails, at a timeout for example; then the server's response to that
  -- call, which bears the call's number, comes in, in any pieces; and its call `b` is sent. Then the
  -- first call returns the error, and the second one, for `b`, returns the code of the response to
  -- `a`, as a uint32.
  pub call_all_late :
      (a b : Call D) (k : ClientV2) (cap : ℤ) (code : ResponseCode) (n m : ℕ) (e : Error)
      (es : List Event) (rest : Bytes) (w v : World)
      → IsSound k.cipher
      → le_int cap (pos (to_uint32 k.max_frame_size)) ≡ true
      → k.send_seq + 1 < 2 ^ 64
      → k.recv_seq ≤ k.send_seq
      → NoDeadlineFails w
      → (sending ⦃box = box⦄ k (message_for a k) w).0 ≡ ok n
      → w.conn.incoming ≡ fail e ∷ es
      → (sending ⦃box = box⦄ (left_behind k) (message_for b (left_behind k)) (world_failed a k w)).0
        ≡ ok m
      → (send_response_frame k.cipher code (next_seq k.send_seq) cap v).0 ≡ ok tt
      → stream es
        ≡ sent_between v (send_response_frame k.cipher code (next_seq k.send_seq) cap v).1 ++ rest
      → (call_all box (a ∷ b ∷ []) k w).0
        ≡ err (wrap "atxp.ClientV2.send" e) ∷ ok (pos (to_uint32 code)) ∷ []
  unfolding send_message
  call_all_late a b k cap code n m e es rest w v sound caps room old calm sent broken sent' replied
        arrives =
      let w1 = world_asked a k w in
      let w2 = world_failed a k w in
      let k' = left_behind k in
      let w3 = world_asked b k' w2 in
      let calm1 =
        (send_message_frame-Steady ⦃box = box⦄ k.cipher (message_for a k) (next_seq k.send_seq)
            k.max_frame_size).after
          w calm in
      let calm2 = (receive_response_frame-Steady k.cipher k.max_frame_size).after w1 calm1 in
      let calm3 =
        (send_message_frame-Steady ⦃box = box⦄ k.cipher (message_for b k') (next_seq k'.send_seq)
            k.max_frame_size).after
          w2 calm2 in
      let (failed, left) =
        receive_response_frame_fails k.cipher k.max_frame_size w1 e es
          (ap (λ fs. (next_fault fs).0) calm1)
          (send_message_frame-incoming ⦃box = box⦄ k.cipher (message_for a k) (next_seq k.send_seq)
              k.max_frame_size w
            ∙ broken) in
      let (got, _) =
        receive_response_frame-send_response_frame k.cipher sound cap k.max_frame_size caps code
          (next_seq k.send_seq) rest v w3 (omega arith) replied
          (record {
            arrives =
                ap stream (
                  send_message_frame-incoming ⦃box = box⦄ k.cipher (message_for b k')
                    (next_seq k'.send_seq) k.max_frame_size w2
                  ∙ left)
                ∙ arrives;
            works = ap (λ fs. (next_fault fs).0) calm3;
          }) in
      let first = send_fails a k w n e sent failed in
      let second =
        send_answered box k' b.type b.body b.filename w2 m (next_seq k.send_seq)
          (pos (to_uint32 code)) sent' got (omega arith) in
      ap (λ q. let o = send box q.1 b.type b.body b.filename q.2 in q.0 ∷ o.0 ∷ []) first
      ∙ ap (λ o. err (wrap "atxp.ClientV2.send" e) ∷ o.0 ∷ []) second
