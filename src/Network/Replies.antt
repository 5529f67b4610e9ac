-- ===== src/Network/Replies.antt =====
-- client_v2.go on such a network: the codes that the calls of a client return.
use atxp.Common.{
  ℕ, ◌<◌, ◌^◌, ◌≡◌, refl, ap, sym, ◌∙◌, subst, some, List, [], ◌∷◌, All, map, leb, Bool-cases, inl,
  inr, arith,
}
use atxp.Common.Int.{ℤ, pos, to_uint32}
use atxp.Common.Subsequence.{IsIn, Subsequence, Subsequence-map, Ascends, Ascends-Subsequence}
use atxp.Errors.{Result, ok, err}
use atxp.Wire.{Bytes}
use atxp.Conn.{World}
use atxp.Conn.Consumes.{arriving, Taken, Consumes, consume_rules}
use atxp.Crypto.{Cipher}
use atxp.Message.{Box, Message, Mt, ResponseCode}
use atxp.Frame.{read_frame, read_sealed, send_message_frame, receive_response_frame}
use atxp.Client.{ClientV2, next_seq, message_of, accept_reply, await_reply, send, send_message}
use atxp.Client.Counters.{ReplyCounted, send-Counted}
use atxp.Exchange.Peers.{Call, send_message_frame-incoming}
use atxp.Exchange.Dialogue.{call_all}
use atxp.Network.{Unforged, Unforged-rest, receive_response_frame-sent}

-- The codes of the calls that did not fail.
abbrev pub accepted : List (Result ResponseCode) → List ResponseCode
accepted [] = []
accepted (ok code ∷ rs) = code ∷ accepted rs
accepted (err e ∷ rs) = accepted rs

-- A response as the client sees it.
abbrev pub code_seen : ℕ × ResponseCode → ResponseCode
code_seen (seq, code) = pos (to_uint32 code)

receive-Consumes : (c : Cipher) (cap : ℤ) → Consumes (receive_response_frame c cap)
unfolding receive_response_frame read_frame read_sealed
receive-Consumes c cap = search consume_rules depth 14

accept_reply_inv :
    (r : Result (ResponseCode × ℕ)) (c : ClientV2) (w : World) (code : ResponseCode)
    → (accept_reply r c w).0 ≡ ok code
    → (seq : ℕ) × (r ≡ ok (code, seq)) × ((accept_reply r c w).1.recv_seq ≡ seq)
unfolding accept_reply
accept_reply_inv (err e) c w code h = cc
accept_reply_inv (ok (x, seq)) c w code h = elim (Bool-cases (leb seq c.recv_seq)) [
  | inl replay ↦ cc (rw (replay) at h)
  | inr new ↦ (seq, ground arith, ground arith)
]

accept_reply_world :
    (r : Result (ResponseCode × ℕ)) (c : ClientV2) (w : World) → (accept_reply r c w).2 ≡ w
unfolding accept_reply
accept_reply_world (err e) c w = refl
accept_reply_world (ok (x, seq)) c w = ground arith

await_reply_inv :
    (r : Result ℕ) (c : ClientV2) (w : World) (code : ResponseCode)
    → (await_reply r c w).0 ≡ ok code
    → (seq : ℕ) × ((receive_response_frame c.cipher c.max_frame_size w).0 ≡ ok (code, seq))
      × ((await_reply r c w).1.recv_seq ≡ seq)
unfolding await_reply
await_reply_inv (err e) c w code h = cc
await_reply_inv (ok n) c w code h =
    let (r, w') = receive_response_frame c.cipher c.max_frame_size w in
    accept_reply_inv r c w' code h

await_reply-Taken :
    (r : Result ℕ) (c : ClientV2) (w : World)
    → Taken w.conn.incoming (await_reply r c w).2.conn.incoming
unfolding await_reply
await_reply-Taken (err e) c w = ([], refl)
await_reply-Taken (ok n) c w =
    let (r, w') = receive_response_frame c.cipher c.max_frame_size w in
    subst (λ v. Taken w.conn.incoming v.conn.incoming) (sym (accept_reply_world r c w'))
      ((receive-Consumes c.cipher c.max_frame_size).at w)

module _ {O : Type 0} (box : Box O) where
  -- The world behind the write of a call.
  abbrev written : ClientV2 → Mt → Bytes → Bytes → World → World
  written k type body filename w =
      let k' = record k { send_seq = next_seq k.send_seq } in
      (send_message_frame ⦃box = box⦄ k'.cipher
        (some (message_of ⦃box = box⦄ k' type body filename)) k'.send_seq k'.max_frame_size w).1

  send_inv :
      (k : ClientV2) (type : Mt) (body filename : Bytes) (w : World) (code : ResponseCode)
      → (send box k type body filename w).0 ≡ ok code
      → (seq : ℕ) × ((receive_response_frame k.cipher k.max_frame_size
            (written k type body filename w)).0
          ≡ ok (code, seq))
        × ((send box k type body filename w).1.recv_seq ≡ seq)
  unfolding send
  send_inv k type body filename w code h =
      let k' = record k { send_seq = next_seq k.send_seq } in
      await_reply_inv _ k' (written k type body filename w) code h

  written-incoming :
      (k : ClientV2) (type : Mt) (body filename : Bytes) (w : World)
      → (written k type body filename w).conn.incoming ≡ w.conn.incoming
  written-incoming k type body filename w =
      let k' = record k { send_seq = next_seq k.send_seq } in
      send_message_frame-incoming ⦃box = box⦄ k.cipher
        (message_of ⦃box = box⦄ k' type body filename) k'.send_seq k.max_frame_size w

  send-Taken :
      (k : ClientV2) (type : Mt) (body filename : Bytes) (w : World)
      → Taken w.conn.incoming (send box k type body filename w).2.conn.incoming
  unfolding send
  send-Taken k type body filename w =
      let k' = record k { send_seq = next_seq k.send_seq } in
      subst (λ es. Taken es (send box k type body filename w).2.conn.incoming)
        (written-incoming k type body filename w)
        (await_reply-Taken _ k' (written k type body filename w))

-- The responses that the calls have taken, in order.
record Accepts (replies : List (ℕ × ResponseCode)) (lo : ℕ) (rs : List (Result ResponseCode))
    : Type 0 where
  taken : List (ℕ × ResponseCode)
  codes : accepted rs ≡ map code_seen taken
  rises : Ascends lo taken
  genuine : All (λ r. IsIn r replies) taken

module _ {O D : Type 0} ⦃box : Box O⦄ (sent : List (ℕ × Message O))
    (replies : List (ℕ × ResponseCode)) (narrow : All (λ r. r.0 < 2 ^ 64) replies) where
  send-Accepts :
      (r : Result ResponseCode) (call : Call D) (k : ClientV2) (w : World)
      (rs : List (Result ResponseCode))
      → Unforged k.cipher sent replies (arriving w.conn.incoming)
      → let o = send box k call.type call.body call.filename w in
        o.0 ≡ r → Accepts replies o.1.recv_seq rs → Accepts replies k.recv_seq (r ∷ rs)
  send-Accepts (err e) call k w rs u h a =
      let o = send box k call.type call.body call.filename w in
      let kept : o.1.recv_seq ≡ k.recv_seq =
        subst (ReplyCounted k.recv_seq o.1.recv_seq) h
          (send-Counted box k call.type call.body call.filename w).recv_seq in
      record {
        taken = a.taken;
        codes = a.codes;
        rises = subst (λ lo. Ascends lo a.taken) kept a.rises;
        genuine = a.genuine;
      }
  send-Accepts (ok code) call k w rs u h a =
      let o = send box k call.type call.body call.filename w in
      let (seq, got, moved) = send_inv box k call.type call.body call.filename w code h in
      let w1 = written box k call.type call.body call.filename w in
      let (r, i, same, shown) =
        receive_response_frame-sent k.cipher sent replies k.max_frame_size code seq w1 narrow
          (subst (λ es. Unforged k.cipher sent replies (arriving es))
            (sym (written-incoming box k call.type call.body call.filename w)) u)
          got in
      let raised : k.recv_seq < o.1.recv_seq =
        subst (ReplyCounted k.recv_seq o.1.recv_seq) h
          (send-Counted box k call.type call.body call.filename w).recv_seq in
      record {
        taken = r ∷ a.taken;
        codes = ap (λ x. x ∷ accepted rs) (sym shown) ∙ ap (λ t. code_seen r ∷ t) a.codes;
        rises = (
          omega (arith, raised, same, moved),
          subst (λ lo. Ascends lo a.taken) (moved ∙ sym same) a.rises,
        );
        genuine = (i, a.genuine);
      }

  call_all-Accepts :
      (calls : List (Call D)) (k : ClientV2) (w : World)
      → Unforged k.cipher sent replies (arriving w.conn.incoming)
      → Accepts replies k.recv_seq (call_all box calls k w).0
  unfolding send_message
  call_all-Accepts [] k w u = record { taken = []; codes = refl; rises = tt; genuine = tt }
  call_all-Accepts (call ∷ calls) k w u =
      let (r, k', w') = send box k call.type call.body call.filename w in
      let (front, p) = send-Taken box k call.type call.body call.filename w in
      let same = (send-Counted box k call.type call.body call.filename w).cipher in
      let u' =
        subst (λ c. Unforged c sent replies (arriving w'.conn.incoming)) (sym same)
          (Unforged-rest k.cipher sent replies front (arriving w'.conn.incoming)
            (subst (Unforged k.cipher sent replies) p u)) in
      send-Accepts r call k w (call_all box calls k' w').0 u refl (call_all-Accepts calls k' w' u')

  -- A client on a hostile network. The server numbers its responses upwards, below 2^64. Between the
  -- peers anyone may drop, repeat, reorder and cut frames, send messages of the client back to it
  -- and add bytes, reads may fail at any point, but no frame is forged: whatever piece of the
  -- incoming bytes opens under the key of the connection was sealed by the client for one of its
  -- messages or by the server for one of its responses. Then, over any calls one after the other,
  -- the codes that they return are a subsequence of those of the server's responses, as uint32s: a
  -- call that does not fail returns a code that the server sent, no response is taken twice, and
  -- their order is that of the server.
  pub call_all-Subsequence :
      (calls : List (Call D)) (k : ClientV2) (lo : ℕ) (w : World)
      → Ascends lo replies
      → Unforged k.cipher sent replies (arriving w.conn.incoming)
      → Subsequence (accepted (call_all box calls k w).0) (map code_seen replies)
  call_all-Subsequence calls k lo w ascends u =
      let a = call_all-Accepts calls k w u in
      subst (λ t. Subsequence t (map code_seen replies)) (sym a.codes)
        (Subsequence-map code_seen
          (Ascends-Subsequence k.recv_seq lo a.taken replies a.rises ascends a.genuine))
