-- ===== src/Exchange/Dialogue.antt =====
-- client_v2.go and server_v2.go together, for a whole connection: the client's calls one after the
-- other, and the loop of the server on the other side.
use atxp.Common.{
  ℕ, zero, suc, ◌<◌, ◌≡◌, refl, ap, ◌∙◌, true, some, List, [], ◌∷◌, ◌++◌, length, arith,
}
use atxp.Common.Int.{pos, le_int, to_uint32}
use atxp.Errors.{Result, ok}
use atxp.Wire.{Bytes}
use atxp.Conn.{World, next_fault}
use atxp.Conn.Stream.{stream}
use atxp.Conn.Steady.{NoDeadlineFails}
use atxp.Crypto.Laws.{IsSound}
use atxp.Message.{Box, Message, ResponseCode}
use atxp.Envelope.Layout.{Fits, fields_of}
use atxp.Envelope.Laws.{received}
use atxp.Frame.Quiet.{send_response_frame-incoming}
use atxp.Frame.Transfer.{
  sent_between, receive_message_frame-send_message_frame,
  receive_response_frame-send_response_frame,
}
use atxp.Client.{ClientV2, next_seq, send_message}
use atxp.Server.{ServerV2, go_on, round, loop}
use atxp.Server.Spec.{IsAuthorized}
use atxp.Server.Mail.{receive-Steady, send_response_frame-Steady}
use atxp.Server.Answers.{loop_next, loop_last}
use atxp.Exchange.{send_answered}
use atxp.Exchange.Peers.{
  Call, Peers, asked, reply_code, up, taken, down, behind, behind_all, up_bytes, down_bytes,
  returned, AllWork, IsSynced, send_message_frame-Steady, receive_response_frame-Steady,
  send_message_frame-incoming, round-behind, IsSynced-behind,
}

module _ {O D : Type 0} (box : Box O) where
  -- The calls of the client, one after the other.
  abbrev pub call_all :
      List (Call D) → ClientV2 → World → List (Result ResponseCode) × ClientV2 × World
  call_all [] k w = ([], k, w)
  call_all (call ∷ calls) k w =
      let (r, k', w') = send_message box k call.type call.body call.filename w in
      let (rs, k'', w'') = call_all calls k' w' in (r ∷ rs, k'', w'')

module _ {O D : Type 0} ⦃box : Box O⦄ (blank : Message O) (no_auth : D) (s : ServerV2 O D) where
  -- What one exchange has come to: the call returned the code, the round went on, and what is behind
  -- the two frames is left in the streams.
  Exchanged : Call D → Peers O D → Bytes → Bytes → Type 0
  Exchanged call p rest more =
      (send_message box p.client call.type call.body call.filename p.near ≡ (
        ok (pos (to_uint32 (reply_code blank no_auth s call p))),
        (behind blank no_auth s call p).client,
        (behind blank no_auth s call p).near,
      ))
      × (round blank no_auth s p.client.cipher p.session p.far
          ≡ (go_on, (behind blank no_auth s call p).session, (behind blank no_auth s call p).far))
      × (stream (behind blank no_auth s call p).far.conn.incoming ≡ rest)
      × (stream (behind blank no_auth s call p).near.conn.incoming ≡ more)

  module _ (call : Call D) (p : Peers O D) (sound : IsSound p.client.cipher)
      (up_cap : le_int p.client.max_frame_size (pos (to_uint32 s.v.max_frame_size)) ≡ true)
      (down_cap : le_int s.v.max_frame_size (pos (to_uint32 p.client.max_frame_size)) ≡ true) where
    exchange-Exchanged :
        (n k : ℕ) (rest more : Bytes)
        → IsSynced blank no_auth s p (suc n)
        → NoDeadlineFails p.near
        → NoDeadlineFails p.far
        → Fits (fields_of (asked blank no_auth s call p) (next_seq p.client.send_seq))
        → IsAuthorized no_auth s.auth_fn (received (asked blank no_auth s call p)) call.user
        → (up blank no_auth s call p).0 ≡ ok k
        → (down blank no_auth s call p).0 ≡ ok tt
        → stream p.far.conn.incoming ≡ sent_between p.near (up blank no_auth s call p).1 ++ rest
        → stream p.near.conn.incoming
          ≡ sent_between (taken blank no_auth s p) (down blank no_auth s call p).1 ++ more
        → Exchanged call p rest more
    unfolding Exchanged send_message
    exchange-Exchanged n k rest more synced calm calm' fits known sent replied there here =
        let c = p.client.cipher in
        let seq = next_seq p.client.send_seq in
        let seq' = next_seq p.session.send_seq in
        let (got, left) =
          receive_message_frame-send_message_frame c sound p.client.max_frame_size
            s.v.max_frame_size up_cap (asked blank no_auth s call p) blank seq k rest p.near p.far
            fits sent (record { arrives = there; works = ap (λ fs. (next_fault fs).0) calm' }) in
        let w1 = (up blank no_auth s call p).1 in
        let unread =
          send_message_frame-incoming c (asked blank no_auth s call p) seq p.client.max_frame_size
            p.near in
        let calm1 =
          (send_message_frame-Steady c (asked blank no_auth s call p) seq
              p.client.max_frame_size).after
            p.near calm in
        let (answer, left') =
          receive_response_frame-send_response_frame c sound s.v.max_frame_size
            p.client.max_frame_size down_cap (reply_code blank no_auth s call p) seq' more
            (taken blank no_auth s p) w1 (omega arith) replied
            (record {
              arrives = ap stream unread ∙ here;
              works = ap (λ fs. (next_fault fs).0) calm1;
            }) in
        (
          send_answered box p.client call.type call.body call.filename p.near k seq'
              (pos (to_uint32 (reply_code blank no_auth s call p))) sent answer
              (omega (arith, synced.heard, synced.room')),
          round-behind blank no_auth s call p got (omega (arith, synced.seen, synced.room)) known,
          ap stream (
                send_response_frame-incoming c (reply_code blank no_auth s call p) seq'
                  s.v.max_frame_size (taken blank no_auth s p))
              ∙ left,
          left',
        )

  near-Steady :
      (call : Call D) (p : Peers O D)
      → NoDeadlineFails p.near
      → NoDeadlineFails (behind blank no_auth s call p).near
  near-Steady call p h =
      (receive_response_frame-Steady p.client.cipher p.client.max_frame_size).after
        (up blank no_auth s call p).1
        ((send_message_frame-Steady p.client.cipher (asked blank no_auth s call p)
            (next_seq p.client.send_seq) p.client.max_frame_size).after
          p.near h)

  far-Steady :
      (call : Call D) (p : Peers O D)
      → NoDeadlineFails p.far
      → NoDeadlineFails (behind blank no_auth s call p).far
  far-Steady call p h =
      (send_response_frame-Steady p.client.cipher (reply_code blank no_auth s call p)
          (next_seq p.session.send_seq) s.v.max_frame_size).after
        (taken blank no_auth s p)
        ((receive-Steady blank p.client.cipher s.v.max_frame_size).after p.far h)

  -- A whole conversation of version 2. A client and a server with one sound cipher, neither of whose
  -- caps is above the other's as a uint32, agree on their counters, which do not wrap around; no
  -- deadline call fails on either side. The client makes one call after the other: each message fits
  -- the widths of the envelope, is of a user who is authorized, with the data, and is sent, and so is
  -- each reply; the bytes of each side come in at the other in any pieces. Then every call returns the
  -- code of the handler of its type on the received message and the data, or ERROR where there is no
  -- handler, as a uint32, in the order of the calls, and the client's counters are those of as many
  -- exchanges; with more fuel than calls the server's loop ends, and its session has dispatched and
  -- answered the messages in the same order.
  pub call_all-loop :
      (calls : List (Call D)) (p : Peers O D) (fuel : ℕ)
      → IsSound p.client.cipher
      → le_int p.client.max_frame_size (pos (to_uint32 s.v.max_frame_size)) ≡ true
      → le_int s.v.max_frame_size (pos (to_uint32 p.client.max_frame_size)) ≡ true
      → IsSynced blank no_auth s p (length calls)
      → NoDeadlineFails p.near
      → NoDeadlineFails p.far
      → AllWork blank no_auth s calls p
      → stream p.far.conn.incoming ≡ up_bytes blank no_auth s calls p
      → stream p.near.conn.incoming ≡ down_bytes blank no_auth s calls p
      → length calls < fuel
      → (call_all box calls p.client p.near ≡ (
        returned blank no_auth s calls p,
        (behind_all blank no_auth s calls p).client,
        (behind_all blank no_auth s calls p).near,
      ))
        × ((v : World) × (loop blank no_auth fuel s p.client.cipher p.session p.far
              ≡ some ((behind_all blank no_auth s calls p).session, v)))
  unfolding Exchanged
  call_all-loop calls p zero sound up_cap down_cap synced calm calm' work there here lt =
      absurd (omega arith)
  call_all-loop [] p (suc fuel) sound up_cap down_cap synced calm calm' work there here lt =
      (refl, loop_last no_auth s blank p.client.cipher fuel p.session p.far there)
  call_all-loop (call ∷ calls) p (suc fuel) sound up_cap down_cap synced calm calm'
        (fits, known, (k, sent), replied, work) there here lt =
      let (e, on, left, left') =
        exchange-Exchanged call p sound up_cap down_cap (length calls) k
          (up_bytes blank no_auth s calls (behind blank no_auth s call p))
          (down_bytes blank no_auth s calls (behind blank no_auth s call p)) synced calm calm' fits
          known sent replied there here in
      let (results, (v, run)) =
        call_all-loop calls (behind blank no_auth s call p) fuel sound up_cap down_cap
          (IsSynced-behind blank no_auth s call p (length calls) synced) (near-Steady call p calm)
          (far-Steady call p calm') work left left' (omega arith) in
      (
        ap (λ q. let t = call_all box calls q.1 q.2 in (q.0 ∷ t.0, t.1, t.2)) e
            ∙ ap (λ t. (ok (pos (to_uint32 (reply_code blank no_auth s call p))) ∷ t.0, t.1, t.2))
                results,
        (
          v,
          loop_next no_auth s blank p.client.cipher fuel p.session
                (behind blank no_auth s call p).session p.far (behind blank no_auth s call p).far on
              ∙ run,
        ),
      )
