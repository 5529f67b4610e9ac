-- ===== src/Server.antt =====
-- server_v2.go: the server, its handlers, and the loop over the frames of one connection. A handler
-- and the authorization function are functions of their arguments; the mutex of the handler map
-- makes each access to it one step.
pub mod Loop
pub mod Between
pub mod Spec
pub mod Connection
pub mod Fuel
pub mod Mail
pub mod Answers
pub mod Promises
pub mod Deadlines
pub mod Output
pub mod Wire
pub mod Safe
pub mod Concurrent
pub mod Handlers
use atxp.Common.{
  ℕ, zero, suc, ◌+◌, ◌%◌, ◌^◌, Bool, Option, none, some, List, [], ◌∷◌, ◌++◌, leb, if◌then◌else◌,
}
use atxp.Common.Int.{ℤ}
use atxp.Common.Table.{lookup, insert}
use atxp.Errors.{Error, new_error, Result, ok, err}
use atxp.Wire.{Bytes}
use atxp.Conn.{World, Io, close_conn}
use atxp.Crypto.{Crypto, Cipher}
use atxp.Message.{Box, Message, Mt, ResponseCode, error_code, unauthorized}
use atxp.Frame.{receive_message_frame, send_response_frame}
use atxp.Endpoint.{V2, OptionV2, new_v2, server_handshake}
use atxp.Client.{next_seq}

-- The connection loop goes on, or the function returns.
pub data Next : Type 0 where
  go_on stop : Next

-- What the loop has done, oldest first: `dispatched` a frame to a handler, `replied` with a code. The
-- code keeps no such record; the theorems speak of it.
pub data Entry (O D : Type 0) : Type 0 where
  dispatched : ℕ → Message O → D → Entry O D
  replied : ℕ → ResponseCode → Entry O D

-- The variables of `HandleConnection`.
pub record Session (O D : Type 0) : Type 0 where
  pub recv_seq : ℕ
  pub send_seq : ℕ
  pub history : List (Entry O D)

-- `D` is `AuthData`, whose zero value is `no_auth`.
abbrev pub Handler : Type 0 → Type 0 → Type 0
Handler O D = Message O → D → ResponseCode

abbrev pub AuthHandlerV2 : Type 0 → Type 0
AuthHandlerV2 D = Bytes → Bool × D

pub record ServerV2 (O D : Type 0) : Type 0 where
  pub v : V2
  pub auth_fn : Option (AuthHandlerV2 D)
  pub handlers : List (Mt × Handler O D)

module _ {O D : Type 0} where
  unfoldable pub new_server_v2 :
      Bytes → Option (AuthHandlerV2 D) → List OptionV2 → Result (ServerV2 O D)
  new_server_v2 password auth_fn opts = elim (new_v2 password opts) [
    | err e ↦ err e
    | ok v ↦ ok (record { v = v; auth_fn = auth_fn; handlers = [] })
  ]

  unfoldable pub register_handler : Mt → Handler O D → ServerV2 O D → ServerV2 O D
  register_handler message_type handler s = record s {
    handlers = insert message_type handler s.handlers;
  }

  -- the method `handler`
  unfoldable pub find_handler : ServerV2 O D → Mt → Option (Handler O D)
  find_handler s message_type = lookup message_type s.handlers

  -- sendSeq++, then `sendResponseFrame`, whose error is ignored
  unfoldable pub reply : Cipher → ℤ → ResponseCode → Session O D → World → Session O D × World
  reply c cap code st w =
      let seq = next_seq st.send_seq in
      (
        record st { send_seq = seq; history = st.history ++ replied seq code ∷ [] },
        (send_response_frame c code seq cap w).1,
      )

  -- Whether the frame may be handled, and the data for the handler.
  unfoldable pub authorize : D → Option (AuthHandlerV2 D) → Message O → Option D
  authorize no_auth none msg = some no_auth
  authorize no_auth (some auth_fn) msg =
      let (authorized, auth) = auth_fn msg.auth.username in if authorized then some auth else none

  -- A reply, and whether the loop goes on behind it.
  abbrev pub answer :
      Next → Cipher → ℤ → ResponseCode → Session O D → World → Next × Session O D × World
  answer next c cap code st w = let (st', w') = reply c cap code st w in (next, st', w')

  -- The loop body behind the lookup of the handler.
  unfoldable pub dispatch :
      Option (Handler O D)
      → Cipher
      → ℤ
      → ℕ
      → Message O
      → D
      → Session O D
      → World
      → Next × Session O D × World
  dispatch none c cap seq msg auth st w = answer go_on c cap error_code st w
  dispatch (some handler) c cap seq msg auth st w =
      answer go_on c cap (handler msg auth)
        (record st { history = st.history ++ dispatched seq msg auth ∷ [] }) w

  -- The loop body behind the authorization.
  unfoldable pub admit :
      Option D
      → ServerV2 O D
      → Cipher
      → ℕ
      → Message O
      → Session O D
      → World
      → Next × Session O D × World
  admit none s c seq msg st w = answer stop c s.v.max_frame_size unauthorized st w
  admit (some auth) s c seq msg st w =
      dispatch (find_handler s msg.type) c s.v.max_frame_size seq msg auth st w

  -- The loop body behind `receiveMessageFrame`.
  unfoldable pub handle_frame :
      D
      → ServerV2 O D
      → Cipher
      → Result (Message O × ℕ)
      → Session O D
      → World
      → Next × Session O D × World
  handle_frame no_auth s c (err e) st w = (stop, st, w)
  handle_frame no_auth s c (ok (msg, seq)) st w =
      if leb seq st.recv_seq
      then answer stop c s.v.max_frame_size error_code st w
      else admit (authorize no_auth s.auth_fn msg) s c seq msg (record st { recv_seq = seq }) w

  -- The deferred `conn.Close()`
  abbrev pub closed : Option (Session O D × World) → Option (Session O D × World)
  closed none = none
  closed (some (st, w)) = some (st, (close_conn w).1)

  -- The variables at the start.
  abbrev pub fresh_session : Session O D
  fresh_session = record { recv_seq = 0; send_seq = 0; history = [] }

module _ {O D : Type 0} ⦃box : Box O⦄ (blank : Message O) (no_auth : D) where
  -- One round of the loop of `HandleConnection`.
  unfoldable pub round : ServerV2 O D → Cipher → Session O D → World → Next × Session O D × World
  round s c st w =
      let (r, w') = receive_message_frame blank c s.v.max_frame_size w in
      handle_frame no_auth s c r st w'

  -- The loop, with fuel; none means that the fuel ran out.
  unfoldable pub loop :
      ℕ → ServerV2 O D → Cipher → Session O D → World → Option (Session O D × World)
  loop zero s c st w = none
  loop (suc fuel) s c st w =
      let (next, st', w') = round s c st w in
      let rest = loop fuel s c st' w' in elim next [ stop ↦ some (st', w') | go_on ↦ rest ]

  module _ (cr : Crypto) where
    -- HandleConnection, with fuel for its loop.
    unfoldable pub handle_connection : ℕ → ServerV2 O D → World → Option (Session O D × World)
    handle_connection fuel s w =
        let (r, w') = server_handshake cr s.v w in
        elim r [
          | err e ↦ closed (some (fresh_session, w'))
          | ok c ↦ closed (loop fuel s c fresh_session w')
        ]

-- What `Accept` returns in turn: a connection, or an error. At the end of the script it waits.
abbrev pub Listener : Type 0
Listener = List (Result World)

-- The connections for which a goroutine is started, and the error that is returned; none while the
-- loop waits.
abbrev pub accept_loop : Listener → List World × Option Error
accept_loop [] = ([], none)
accept_loop (err e ∷ later) = ([], some e)
accept_loop (ok w ∷ later) = let (started, e) = accept_loop later in (w ∷ started, e)

-- Serve; none for a nil listener
unfoldable pub serve_v2 : Option Listener → List World × Option Error
serve_v2 none = ([], some (new_error "atxp.ServerV2.Serve: listener cannot be nil"))
serve_v2 (some listener) = accept_loop listener
