-- ===== src/Client.antt =====
-- client_v2.go: the client of one connection. A method takes the client and the world in which its
-- connection stands, and returns the result, the client after the call and the world.
pub mod Counters
pub mod Start
use atxp.Common.{ℕ, ◌+◌, ◌%◌, ◌^◌, some, List, [], ◌∷◌, leb, if◌then◌else◌}
use atxp.Common.Int.{ℤ}
use atxp.Errors.{Result, ok, err, sentinel, wrap, err_replay}
use atxp.Wire.{Bytes}
use atxp.Conn.{World, Io, pure, lift, wrap_err, close_conn, ◌>>=◌}
use atxp.Crypto.{Crypto, Cipher}
use atxp.Message.{Box, Message, Mt, ResponseCode, url, document, notification}
use atxp.Frame.{send_message_frame, receive_response_frame}
use atxp.Endpoint.{OptionV2, new_v2, client_handshake}

pub record ClientV2 : Type 0 where
  pub cipher : Cipher
  pub username : Bytes
  pub max_frame_size : ℤ
  pub send_seq : ℕ
  pub recv_seq : ℕ

-- What a method returns.
abbrev pub Outcome : Type 0 → Type 0
Outcome A = Result A × ClientV2 × World

-- c.sendSeq++ on a uint64
abbrev pub next_seq : ℕ → ℕ
next_seq seq = (seq + 1) % 2 ^ 64

-- The checks of `send` on the response.
unfoldable pub accept_reply : Result (ResponseCode × ℕ) → ClientV2 → World → Outcome ResponseCode
accept_reply (err e) c w = (err (wrap "atxp.ClientV2.send" e), c, w)
accept_reply (ok (code, seq)) c w =
    if leb seq c.recv_seq
    then (err (sentinel err_replay), c, w)
    else (ok code, record c { recv_seq = seq }, w)

-- `send` behind the call of `sendMessageFrame`
unfoldable pub await_reply : Result ℕ → ClientV2 → World → Outcome ResponseCode
await_reply (err e) c w = (err (wrap "atxp.ClientV2.send" e), c, w)
await_reply (ok n) c w =
    let (r, w') = receive_response_frame c.cipher c.max_frame_size w in accept_reply r c w'

module _ {O : Type 0} ⦃box : Box O⦄ where
  -- The message that `send` builds.
  abbrev pub message_of : ClientV2 → Mt → Bytes → Bytes → Message O
  message_of c message_type body filename = record {
    type = message_type;
    body = box.new_some body;
    auth = record { username = c.username; password = [] };
    filename = filename;
  }

module _ {O : Type 0} (box : Box O) where
  unfoldable pub send : ClientV2 → Mt → Bytes → Bytes → World → Outcome ResponseCode
  send c message_type body filename w =
      let c' = record c { send_seq = next_seq c.send_seq } in
      let msg = message_of ⦃box = box⦄ c' message_type body filename in
      let (r, w') =
        send_message_frame ⦃box = box⦄ c'.cipher (some msg) c'.send_seq c'.max_frame_size w in
      await_reply r c' w'

  -- the method `Send`
  unfoldable pub send_message : ClientV2 → Mt → Bytes → Bytes → World → Outcome ResponseCode
  send_message c message_type body filename w = send c message_type body filename w

  unfoldable pub send_url : ClientV2 → Bytes → World → Outcome ResponseCode
  send_url c address w = send c url address [] w

  unfoldable pub send_document : ClientV2 → Bytes → Bytes → World → Outcome ResponseCode
  send_document c body filename w = send c document body filename w

  unfoldable pub send_notification : ClientV2 → Bytes → World → Outcome ResponseCode
  send_notification c message w = send c notification message [] w

-- Close
unfoldable pub close_client : ClientV2 → Io (Unit {0})
close_client c = close_conn

module _ (cr : Crypto) where
  unfoldable pub new_client_v2 : Bytes → Bytes → List OptionV2 → Io ClientV2
  new_client_v2 password username opts = do
    v ← lift (new_v2 password opts)
    cipher ← wrap_err "atxp.NewClientV2" (client_handshake cr v)
    pure (record {
      cipher = cipher;
      username = username;
      max_frame_size = v.max_frame_size;
      send_seq = 0;
      recv_seq = 0;
    })
