-- ===== src/Exchange/Peers.antt =====
-- The client and the session of the server on one connection, and what the calls of the client come
-- to.
use atxp.Common.{
  refl, ap₂, ℕ, suc, ◌+◌, ◌^◌, ◌<◌, ◌≡◌, ap, sym, ◌∙◌, some, List, [], ◌∷◌, ◌++◌, arith,
}
use atxp.Common.Int.{ℤ, pos, to_uint32}
use atxp.Errors.{Result, ok}
use atxp.Wire.{Bytes}
use atxp.Conn.{World}
use atxp.Conn.Steady.{Steady, steady_rules}
use atxp.Crypto.{Cipher}
use atxp.Message.{Box, Message, Mt, ResponseCode}
use atxp.Envelope.Layout.{Fits, layout, fields_of}
use atxp.Envelope.Laws.{received}
use atxp.Frame.{
  send_message_frame, receive_message_frame, receive_response_frame, read_frame, read_sealed,
  write_frame, write_sealed,
}
use atxp.Frame.Quiet.{write_frame-incoming}
use atxp.Frame.Transfer.{sent_between, send_message_frame-layout}
use atxp.Client.{ClientV2, next_seq, message_of}
use atxp.Server.{Session, ServerV2, go_on, handle_frame, round}
use atxp.Server.Spec.{IsAuthorized}
use atxp.Server.Mail.{
  settled, code_of, authorize-IsAuthorized, handle_frame-settled, settled-recv_seq,
  settled-send_seq,
}
use atxp.Exchange.{sending, receiving, replying}

pub send_message_frame-Steady :
    {O : Type 0} ⦃box : Box O⦄ (c : Cipher) (m : Message O) (seq : ℕ) (cap : ℤ)
    → Steady (send_message_frame c (some m) seq cap)
unfolding send_message_frame write_frame write_sealed
send_message_frame-Steady c m seq cap = search steady_rules depth 14

pub receive_response_frame-Steady : (c : Cipher) (cap : ℤ) → Steady (receive_response_frame c cap)
unfolding receive_response_frame read_frame read_sealed
receive_response_frame-Steady c cap = search steady_rules depth 14

pub send_message_frame-incoming :
    {O : Type 0} ⦃box : Box O⦄ (c : Cipher) (m : Message O) (seq : ℕ) (cap : ℤ) (w : World)
    → (send_message_frame c (some m) seq cap w).1.conn.incoming ≡ w.conn.incoming
send_message_frame-incoming c m seq cap w =
    rw (send_message_frame-layout m seq cap c w)
      (write_frame-incoming c (layout (fields_of m seq)) cap w)

-- A call: the type, the data and the filename, and the data of the user at the server.
pub record Call (D : Type 0) : Type 0 where
  pub type : Mt
  pub body : Bytes
  pub filename : Bytes
  pub user : D

-- The client and the server's session on one connection, and the worlds of the two.
pub record Peers (O D : Type 0) : Type 0 where
  pub client : ClientV2
  pub session : Session O D
  pub near : World
  pub far : World

module _ {O D : Type 0} ⦃box : Box O⦄ (blank : Message O) (no_auth : D) (s : ServerV2 O D) where
  abbrev pub asked : Call D → Peers O D → Message O
  asked call p = message_of p.client call.type call.body call.filename

  -- The code that the server replies with.
  abbrev pub reply_code : Call D → Peers O D → ResponseCode
  reply_code call p = code_of no_auth s (asked call p) call.user

  -- What the client sends, the server's world when it has received that, what the server sends, and
  -- the client's world when it has received that.
  abbrev pub up : Call D → Peers O D → Result ℕ × World
  up call p = sending p.client (asked call p) p.near

  abbrev pub taken : Peers O D → World
  taken p = receiving blank s p.client.cipher p.far

  abbrev pub down : Call D → Peers O D → Result (Unit {0}) × World
  down call p = replying s p.client.cipher (reply_code call p) p.session (taken p)

  abbrev pub back : Call D → Peers O D → World
  back call p = (receive_response_frame p.client.cipher p.client.max_frame_size (up call p).1).1

  -- The peers behind a call.
  abbrev pub behind : Call D → Peers O D → Peers O D
  behind call p = record {
    client = record p.client {
      send_seq = next_seq p.client.send_seq;
      recv_seq = next_seq p.session.send_seq;
    };
    session = settled no_auth s (asked call p, next_seq p.client.send_seq, call.user) p.session;
    near = back call p;
    far = (down call p).1;
  }

  abbrev pub behind_all : List (Call D) → Peers O D → Peers O D
  behind_all [] p = p
  behind_all (call ∷ calls) p = behind_all calls (behind call p)

  -- The bytes that the client sends, and those that the server sends.
  abbrev pub up_bytes : List (Call D) → Peers O D → Bytes
  up_bytes [] p = []
  up_bytes (call ∷ calls) p = sent_between p.near (up call p).1 ++ up_bytes calls (behind call p)

  abbrev pub down_bytes : List (Call D) → Peers O D → Bytes
  down_bytes [] p = []
  down_bytes (call ∷ calls) p =
      sent_between (taken p) (down call p).1 ++ down_bytes calls (behind call p)

  -- What the calls are to return.
  abbrev pub returned : List (Call D) → Peers O D → List (Result ResponseCode)
  returned [] p = []
  returned (call ∷ calls) p =
      ok (pos (to_uint32 (reply_code call p))) ∷ returned calls (behind call p)

  -- Each message fits the envelope and is of an authorized user, and no write fails.
  abbrev pub AllWork : List (Call D) → Peers O D → Type 0
  AllWork [] p = Unit
  AllWork (call ∷ calls) p =
      Fits (fields_of (asked call p) (next_seq p.client.send_seq))
      × IsAuthorized no_auth s.auth_fn (received (asked call p)) call.user
      × ((n : ℕ) × ((up call p).0 ≡ ok n))
      × ((down call p).0 ≡ ok tt)
      × AllWork calls (behind call p)

  -- Both sides agree on the counters, which do not wrap around in as many calls.
  pub record IsSynced (p : Peers O D) (n : ℕ) : Type 0 where
    pub seen : p.session.recv_seq ≡ p.client.send_seq
    pub heard : p.client.recv_seq ≡ p.session.send_seq
    pub room : p.client.send_seq + n < 2 ^ 64
    pub room' : p.session.send_seq + n < 2 ^ 64

  -- The server's round on a call.
  pub round-behind :
      (call : Call D) (p : Peers O D)
      → (receive_message_frame blank p.client.cipher s.v.max_frame_size p.far).0
        ≡ ok (received (asked call p), next_seq p.client.send_seq)
      → p.session.recv_seq < next_seq p.client.send_seq
      → IsAuthorized no_auth s.auth_fn (received (asked call p)) call.user
      → round blank no_auth s p.client.cipher p.session p.far
        ≡ (go_on, (behind call p).session, (behind call p).far)
  unfolding round
  round-behind call p got lt known =
      ap (λ r. handle_frame no_auth s p.client.cipher r p.session (taken p)) got
      ∙ handle_frame-settled no_auth s p.client.cipher (asked call p) (next_seq p.client.send_seq)
          call.user p.session (taken p) lt
          (authorize-IsAuthorized no_auth s s.auth_fn (received (asked call p)) call.user known)

  pub IsSynced-behind :
      (call : Call D) (p : Peers O D) (n : ℕ) → IsSynced p (suc n) → IsSynced (behind call p) n
  IsSynced-behind call p n h =
      let seq = next_seq p.client.send_seq in
      record {
        seen = settled-recv_seq no_auth s (asked call p) seq call.user p.session;
        heard = sym (settled-send_seq no_auth s (asked call p) seq call.user p.session);
        room = omega (arith, h.room);
        room' =
            omega
              (arith, h.room', settled-send_seq no_auth s (asked call p) seq call.user p.session);
      }

module _ {O D : Type 0} (box : Box O) where
  -- The messages of the calls of a client, with their sequence numbers.
  abbrev pub numbered : List (Call D) → ClientV2 → List (ℕ × Message O)
  numbered [] k = []
  numbered (call ∷ calls) k =
      (next_seq k.send_seq, message_of ⦃box = box⦄ k call.type call.body call.filename)
      ∷ numbered calls (record k { send_seq = next_seq k.send_seq })

  -- They depend on the client's username and send counter alone.
  pub numbered_same :
      (calls : List (Call D)) (k k' : ClientV2)
      → k.username ≡ k'.username
      → k.send_seq ≡ k'.send_seq
      → numbered calls k ≡ numbered calls k'
  numbered_same [] k k' u n = refl
  numbered_same (call ∷ calls) k k' u n =
      let head =
        ap₂
          (λ seq name. (
            next_seq seq,
            message_of ⦃box = box⦄ (record k { username = name }) call.type call.body call.filename,
          ))
          n u in
      ap₂ (λ p ms. p ∷ ms) head
        (numbered_same calls (record k { send_seq = next_seq k.send_seq })
          (record k' { send_seq = next_seq k'.send_seq }) u (ap next_seq n))
