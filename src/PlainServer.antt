-- ===== src/PlainServer.antt =====
-- server.go: the server of version 1, its handlers, and the loop over the packets of one connection. A
-- handler and the authorization function are functions of their arguments.
pub mod Spec
pub mod Round
pub mod Loop
pub mod Steps
pub mod Connection
pub mod Answers
pub mod Validate
use atxp.Common.{
  ℕ, zero, suc, Bool, true, false, Option, none, some, List, [], ◌∷◌, ◌++◌, ◌&&◌, ◌||◌, not, length,
  ◌==◌, if◌then◌else◌,
}
use atxp.Common.Int.{ℤ, pos, le_int}
use atxp.Common.Table.{lookup, insert}
use atxp.Errors.{Error, new_error, Result, ok, err}
use atxp.Wire.{Bytes}
use atxp.Conn.{World, close_conn}
use atxp.Message.{Box, Auth, Message, Mt, ResponseCode, ok_code, error_code, unauthorized}
use atxp.Packet.{Decoded, decoded, refused, panicked, deserialize, has_prefix}
use atxp.Transport.{receive}
use atxp.Response.{send_response}
use atxp.Server.{Handler, Listener, accept_loop}

-- The loop goes on, or the function returns, or it panics.
pub data Control : Type 0 where
  continues returns panics : Control

-- What the loop has done, oldest first: a message and the data that went to a handler, a code that
-- went to `SendResponse`. The code keeps no such record; the theorems speak of it.
pub data Act (O D : Type 0) : Type 0 where
  handed : Message O → D → Act O D
  responded : ResponseCode → Act O D

-- The function `authFn`, on a username and a password.
abbrev pub AuthHandler : Type 0 → Type 0
AuthHandler D = Bytes → Bytes → Bool × D

pub record Server (O D : Type 0) : Type 0 where
  pub auth_fn : Option (AuthHandler D)
  pub handlers : List (Mt × Handler O D)

module _ {D : Type 0} where
  -- Whether the message may be handled, and the data for the handler.
  unfoldable pub check_auth : D → Option (AuthHandler D) → Auth → Option D
  check_auth no_auth none auth = some no_auth
  check_auth no_auth (some auth_fn) auth =
      let (authorized, auth_data) = auth_fn auth.username auth.password in
      if authorized then some auth_data else none

module _ {O D : Type 0} where
  unfoldable pub new_server : Option (AuthHandler D) → Server O D
  new_server auth_fn = record { auth_fn = auth_fn; handlers = [] }

  -- the method `RegisterHandler`
  unfoldable pub add_handler : Mt → Handler O D → Server O D → Server O D
  add_handler message_type handler s = record s {
    handlers = insert message_type handler s.handlers;
  }

  -- `SendResponse`, whose results are ignored, and how the loop goes on behind it.
  abbrev pub respond :
      Control → ResponseCode → List (Act O D) → World → Control × List (Act O D) × World
  respond next code acts w = (next, acts ++ responded code ∷ [], (send_response code w).1)

  -- The loop body behind the lookup of the handler.
  unfoldable pub call_handler :
      Option (Handler O D)
      → Message O
      → D
      → List (Act O D)
      → World
      → Control × List (Act O D) × World
  call_handler none msg auth_data acts w = respond continues error_code acts w
  call_handler (some handler) msg auth_data acts w =
      respond continues (handler msg auth_data) (acts ++ handed msg auth_data ∷ []) w

  -- The loop body behind the authorization.
  unfoldable pub admit_message :
      Option D → Server O D → Message O → List (Act O D) → World → Control × List (Act O D) × World
  admit_message none s msg acts w = respond returns unauthorized acts w
  admit_message (some auth_data) s msg acts w =
      call_handler (lookup msg.type s.handlers) msg auth_data acts w

  -- The loop body behind `Deserialize`.
  unfoldable pub handle_message :
      D
      → Server O D
      → Decoded (Message O)
      → List (Act O D)
      → World
      → Control × List (Act O D) × World
  handle_message no_auth s (refused e) acts w = respond returns error_code acts w
  handle_message no_auth s panicked acts w = (panics, acts, w)
  handle_message no_auth s (decoded msg) acts w =
      admit_message (check_auth no_auth s.auth_fn msg.auth) s msg acts w

  -- The deferred `conn.Close()`, which also runs when the function panics.
  abbrev pub with_close :
      Option (Control × List (Act O D) × World) → Option (Control × List (Act O D) × World)
  with_close none = none
  with_close (some (next, acts, w)) = some (next, acts, (close_conn w).1)

-- `blank` is the zero value of `Message`, and `no_auth` the one of `AuthData`.
module _ {O D : Type 0} ⦃box : Box O⦄ (blank : Message O) (no_auth : D) where
  -- The loop body behind `Receive`.
  unfoldable pub handle_raw :
      Server O D → Result Bytes → List (Act O D) → World → Control × List (Act O D) × World
  handle_raw s (err e) acts w = (returns, acts, w)
  handle_raw s (ok raw) acts w =
      if length raw == 0
      then (returns, acts, w)
      else handle_message no_auth s (deserialize raw (some blank)) acts w

  -- One round of the loop of `HandleConnection`.
  unfoldable pub packet_round :
      Server O D → List (Act O D) → World → Control × List (Act O D) × World
  packet_round s acts w = let (raw, w') = receive w in handle_raw s raw acts w'

  -- The loop, with fuel; none means that the fuel ran out.
  unfoldable pub packet_loop :
      ℕ → Server O D → List (Act O D) → World → Option (Control × List (Act O D) × World)
  packet_loop zero s acts w = none
  packet_loop (suc fuel) s acts w =
      let (next, acts', w') = packet_round s acts w in
      let rest = packet_loop fuel s acts' w' in
      elim next [
        | continues ↦ rest
        | returns ↦ some (returns, acts', w')
        | panics ↦ some (panics, acts', w')
      ]

  -- HandleConnection, with fuel for its loop.
  unfoldable pub serve_connection :
      ℕ → Server O D → World → Option (Control × List (Act O D) × World)
  serve_connection fuel s w = with_close (packet_loop fuel s [] w)

-- Serve; none for a nil listener
unfoldable pub serve : Option Listener → List World × Option Error
serve none = ([], some (new_error "listener cannot be nil"))
serve (some listener) = accept_loop listener

-- "http://" and "https://"
abbrev pub http_scheme : Bytes
http_scheme = b'h' ∷ b't' ∷ b't' ∷ b'p' ∷ b':' ∷ b'/' ∷ b'/' ∷ []

abbrev pub https_scheme : Bytes
https_scheme = b'h' ∷ b't' ∷ b't' ∷ b'p' ∷ b's' ∷ b':' ∷ b'/' ∷ b'/' ∷ []

module _ {O D : Type 0} ⦃box : Box O⦄ where
  unfoldable pub validate_url : Handler O D
  validate_url msg auth =
      if box.is_empty msg.body
      then error_code
      else if not (has_prefix (box.get msg.body) http_scheme)
          && not (has_prefix (box.get msg.body) https_scheme)
      then error_code
      else ok_code

  -- len(data) > maxBytes is the negation of <=.
  unfoldable pub validate_document : ℤ → Handler O D
  validate_document max_bytes msg auth =
      if box.is_empty msg.body
      then error_code
      else if not (le_int (pos (length (box.get msg.body))) max_bytes)
          || length (box.get msg.body) == 0
      then error_code
      else ok_code
