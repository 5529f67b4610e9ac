-- ===== src/Server/Connection.antt =====
-- `HandleConnection` as a whole: it ends, what it did is a run of the transition system, and it
-- closes the connection once, at the very end.
use atxp.Common.{
  ℕ, ◌<◌, ◌≡◌, refl, sym, ap, subst, ◌∙◌, some, List, [], ◌∷◌, ◌++◌, length, All, arith,
  append_assoc,
}
use atxp.Common.Int.{ℤ}
use atxp.Errors.{Result, ok, err}
use atxp.Wire.{Bytes}
use atxp.Conn.{
  World, Call, set_read_deadline, set_write_deadline, read, write, close, close_conn, arm_write,
  write_bytes,
}
use atxp.Conn.Stream.{stream}
use atxp.Conn.Trace.{CallsBetween, CallsBetween-trans, no_calls, Makes, trace_rules}
use atxp.Crypto.{Crypto, Cipher}
use atxp.Message.{Box, Message, ResponseCode}
use atxp.Frame.{
  read_frame, read_sealed, write_frame, write_sealed, receive_message_frame, send_response_frame,
}
use atxp.Endpoint.{V2, server_handshake}
use atxp.Server.{Next, go_on, Session, ServerV2, fresh_session, loop, closed, handle_connection}
use atxp.Server.Spec.{Reaches, start}
use atxp.Server.Loop.{loop-Reaches, loop_total}
use atxp.Server.Between.{loop_between}

-- A call that does not close the connection.
abbrev pub IsOpen : Call → Type 0
IsOpen (set_read_deadline d) = Unit
IsOpen (set_write_deadline d) = Unit
IsOpen (read n) = Unit
IsOpen (write bs) = Unit
IsOpen close = ⊥

read_frame-IsOpen : (c : Cipher) (cap : ℤ) → Makes IsOpen (read_frame c cap)
unfolding read_frame read_sealed
read_frame-IsOpen c cap = search trace_rules depth 12

write_frame-IsOpen :
    (c : Cipher) (plaintext : Bytes) (cap : ℤ) → Makes IsOpen (write_frame c plaintext cap)
unfolding write_frame write_sealed
write_frame-IsOpen c plaintext cap = search trace_rules depth 12

send_response_frame-IsOpen :
    (c : Cipher) (code : ResponseCode) (seq : ℕ) (cap : ℤ)
    → Makes IsOpen (send_response_frame c code seq cap)
unfolding send_response_frame
send_response_frame-IsOpen c code seq cap = search (trace_rules, write_frame-IsOpen)

server_handshake-IsOpen : (cr : Crypto) (v : V2) → Makes IsOpen (server_handshake cr v)
unfolding server_handshake
server_handshake-IsOpen cr v = search trace_rules depth 12

pub server_handshake-incoming :
    (cr : Crypto) (v : V2) (w : World) → (server_handshake cr v w).1.conn.incoming ≡ w.conn.incoming
unfolding server_handshake arm_write write_bytes
server_handshake-incoming cr v w = ground arith

module _ {O D : Type 0} (no_auth : D) (s : ServerV2 O D) (c : Cipher) ⦃box : Box O⦄
    (blank : Message O) where
  receive-IsOpen : Makes IsOpen (receive_message_frame blank c s.v.max_frame_size)
  unfolding receive_message_frame
  receive-IsOpen = search (trace_rules, read_frame-IsOpen)

  loop_calls :
      (fuel : ℕ) (st : Session O D) (w : World) (q : Session O D × World)
      → loop blank no_auth fuel s c st w ≡ some q
      → CallsBetween IsOpen w q.1
  loop_calls =
      loop_between no_auth s c (CallsBetween IsOpen) (λ w. no_calls w w refl)
        (λ code seq w. (send_response_frame-IsOpen c code seq s.v.max_frame_size).at w)
        (CallsBetween-trans IsOpen) blank (λ w. receive-IsOpen.at w)

-- A connection that was handled: its session is one that the transition system reaches, and of all
-- calls on the connection the last one closes it, and no other.
module _ {O D : Type 0} (no_auth : D) (s : ServerV2 O D) where
  pub record IsHandled (w : World) (q : Session O D × World) : Type 0 where
    pub next : Next
    pub reached : Reaches no_auth s next q.0
    pub calls : List Call
    pub closes_last : q.1.conn.trace ≡ w.conn.trace ++ (calls ++ close ∷ [])
    pub all_open : All IsOpen calls

  closed-IsHandled :
      (next : Next) (st : Session O D) (w w' : World)
      → Reaches no_auth s next st
      → CallsBetween IsOpen w w'
      → IsHandled w (st, (close_conn w').1)
  unfolding close_conn
  closed-IsHandled next st w w' r (calls, p, h) = record {
    next = next;
    reached = r;
    calls = calls;
    closes_last = ap (λ t. t ++ close ∷ []) p ∙ append_assoc w.conn.trace calls (close ∷ []);
    all_open = h;
  }

  module _ ⦃box : Box O⦄ (blank : Message O) (cr : Crypto) where
    -- With more fuel than there are bytes in the stream `HandleConnection` returns on every
    -- connection, whatever the frames are and whichever calls fail. Its session is then one that the
    -- transition system reaches, and of all its calls on the connection the last one closes it, and
    -- no other does.
    pub handle_connection-IsHandled :
        (fuel : ℕ) (w : World)
        → length (stream w.conn.incoming) < fuel
        → (q : Session O D × World) × (handle_connection blank no_auth cr fuel s w ≡ some q)
          × IsHandled w q
    unfolding handle_connection
    handle_connection-IsHandled fuel w lt = after (server_handshake cr s.v w).0
      where
        w1 : World
        w1 = (server_handshake cr s.v w).1

        shaken : CallsBetween IsOpen w w1
        shaken = (server_handshake-IsOpen cr s.v).at w

        after :
            (r : Result Cipher)
            → (q : Session O D × World) × (elim r [
              | err e ↦ closed (some (fresh_session, w1))
              | ok c ↦ closed (loop blank no_auth fuel s c fresh_session w1)
            ]
                ≡ some q)
              × IsHandled w q
        after (err e) = (
          (fresh_session, (close_conn w1).1),
          refl,
          closed-IsHandled go_on fresh_session w w1 start shaken,
        )
        after (ok c) =
            let ((st, w2), e) = loop_total no_auth s c blank fuel fresh_session w1 (
              subst (λ es. length (stream es) < fuel) (sym (server_handshake-incoming cr s.v w))
                lt) in
            let (next, r) = loop-Reaches no_auth s c blank fuel fresh_session w1 (st, w2) start e in
            (
              (st, (close_conn w2).1),
              rw e,
              closed-IsHandled next st w w2 r (
                  CallsBetween-trans IsOpen w w1 w2 shaken
                    (loop_calls no_auth s c blank fuel fresh_session w1 (st, w2) e)),
            )
