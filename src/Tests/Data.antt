-- ===== src/Tests/Data.antt =====
-- Concrete instances for the tests: an optional value, a toy for the cryptographic packages that
-- keeps what their documentation says, endpoints, and connections.
use atxp.Common.{
  ℕ, ◌+◌, ◌^◌, ◌<◌, ◌≡◌, refl, sym, ◌∙◌, true, false, Option, none, some, List, [], ◌∷◌, ◌++◌,
  length, take, drop, eq_bytes, eq_bytes→eq, eq_bytes_refl, append-nil, take-append-drop,
  if◌then◌else◌, arith,
}
use atxp.Common.Int.{pos}
use atxp.Errors.{Result, ok, err, sentinel, err_invalid_checksum}
use atxp.Wire.{Bytes}
use atxp.Conn.{World, Event, arrive, random_bytes}
use atxp.Crypto.{Crypto, Cipher, gcm_cipher}
use atxp.Crypto.Laws.{IsSound, gcm_cipher-IsSound, length-random_bytes}
use atxp.Conn.Stream.{stream}
use atxp.Frame.{send_message_frame, max_frame_size_v2}
use atxp.Envelope.Layout.{Fits, fields_of}
use atxp.Endpoint.{V2, default_v2}
use atxp.Client.{ClientV2}
use atxp.Server.{ServerV2}
use atxp.Message.{Box, Message, ok_code, document}

-- box.Optional[[]byte] as an option
abbrev pub box_of_option : Box (Option Bytes)
box_of_option = record {
  new_some = some;
  is_empty = λ o. elim o [ none ↦ true | some b ↦ false ];
  get = λ o. elim o [ none ↦ [] | some b ↦ b ];
  is_empty-new_some = λ b. refl;
  get-new_some = λ b. refl;
}

-- The connection on which the events come in, with all calls succeeding.
abbrev pub world_of : List Event → World
world_of es = record {
  conn = record {
    incoming = es;
    write_faults = [];
    deadline_faults = [];
    close_fault = none;
    trace = [];
  };
  entropy = record { source = λ i. i; drawn = 0; faults = [] };
}

-- A tag of 16 bytes, from the key, the nonce and the plaintext.
abbrev pub toy_tag : Bytes → Bytes → Bytes → Bytes
toy_tag key nonce plaintext =
    let x = (length key + length nonce + length plaintext) in
    x ∷ x ∷ x ∷ x ∷ x ∷ x ∷ x ∷ x ∷ x ∷ x ∷ x ∷ x ∷ x ∷ x ∷ x ∷ x ∷ []

abbrev pub toy_seal : Bytes → Bytes → Bytes → Bytes
toy_seal key nonce plaintext = toy_tag key nonce plaintext ++ plaintext

abbrev pub toy_open : Bytes → Bytes → Bytes → Result Bytes
toy_open key nonce ciphertext =
    if eq_bytes ciphertext (toy_seal key nonce (drop 16 ciphertext))
    then ok (drop 16 ciphertext)
    else err (sentinel err_invalid_checksum)

toy_open-toy_seal :
    (key nonce plaintext : Bytes) → toy_open key nonce (toy_seal key nonce plaintext) ≡ ok plaintext
toy_open-toy_seal key nonce plaintext =
    rw (eq_bytes_refl (toy_seal key nonce plaintext), toy_open) refl

toy_open-genuine :
    (key nonce ciphertext plaintext : Bytes)
    → toy_open key nonce ciphertext ≡ ok plaintext
    → ciphertext ≡ toy_seal key nonce plaintext
toy_open-genuine key nonce ciphertext plaintext h =
    ground (arith, eq_bytes→eq ciphertext (toy_seal key nonce (drop 16 ciphertext)))

abbrev pub toy_key : Bytes → ℕ → Result Bytes
toy_key password size = ok (random_bytes (λ i. length password + i) 0 size)

length-toy_key :
    (password : Bytes) (size : ℕ) (key : Bytes) → toy_key password size ≡ ok key → length key ≡ size
length-toy_key password size key e =
    ground (arith, length-random_bytes (λ i. length password + i) 0 size)

unfoldable pub toy_crypto : Crypto
unfolding toy_open-toy_seal toy_open-genuine length-toy_key
toy_crypto = record {
  Block = Bytes;
  Aead = Bytes;
  pbkdf2_key = λ password salt n size. toy_key password size;
  aes_new_cipher = ok;
  new_gcm = ok;
  gcm_seal = toy_seal;
  gcm_open = toy_open;
  length-pbkdf2_key = λ password salt n size key e. length-toy_key password size key e;
  length-gcm_seal = λ key nonce plaintext. omega arith;
  gcm_open-gcm_seal = λ key nonce plaintext e. toy_open-toy_seal key nonce plaintext;
  gcm_open-genuine =
      λ key nonce ciphertext plaintext e h. toy_open-genuine key nonce ciphertext plaintext h;
}

abbrev pub blank_message : Message (Option Bytes)
blank_message = record {
  type = pos 0;
  body = none;
  auth = record { username = []; password = [] };
  filename = [];
}

-- A document "hi" of the user "bob", with a password that is not sent.
abbrev pub sample_message : Message (Option Bytes)
sample_message = record {
  type = document;
  body = some (104 ∷ 105 ∷ []);
  auth = record { username = 98 ∷ 111 ∷ 98 ∷ []; password = 112 ∷ [] };
  filename = 102 ∷ [];
}

-- The key that the password "pw" gives, and its cipher.
abbrev pub toy_key_bytes : Bytes
toy_key_bytes = random_bytes (λ i. 2 + i) 0 32

abbrev pub toy_cipher : Cipher
unfolding toy_crypto
toy_cipher = gcm_cipher toy_crypto toy_key_bytes

pub toy_cipher-IsSound : IsSound toy_cipher
unfolding toy_crypto
toy_cipher-IsSound = gcm_cipher-IsSound toy_crypto toy_key_bytes

-- The world in which the bytes come in, in two pieces.
abbrev pub in_pieces : Bytes → World
in_pieces bs = world_of (arrive (take 3 bs) ∷ arrive (drop 3 bs) ∷ [])

pub in_pieces-stream : (bs : Bytes) → stream (in_pieces bs).conn.incoming ≡ bs ++ []
in_pieces-stream bs = rw append-nil (take-append-drop 3 bs) ∙ sym (append-nil bs)

abbrev pub toy_endpoint : V2
toy_endpoint = default_v2 (112 ∷ 119 ∷ [])

-- A server that knows the user "bob" and has a handler for documents.
abbrev pub toy_server : ServerV2 (Option Bytes) ℕ
toy_server = record {
  v = toy_endpoint;
  auth_fn = some (λ username. (eq_bytes username (98 ∷ 111 ∷ 98 ∷ []), 7));
  handlers = (document, λ msg auth. ok_code) ∷ [];
}

-- What a client has sent: the sample message as its first frame.
abbrev pub client_sent : World
client_sent =
    (send_message_frame ⦃box = box_of_option⦄ toy_cipher (some sample_message) 1 max_frame_size_v2
      (world_of [])).1

pub sample_Fits :
    (seq : ℕ) → seq < 2 ^ 64 → Fits (fields_of ⦃box = box_of_option⦄ sample_message seq)
sample_Fits seq h = record {
  seq = h;
  code = omega arith;
  payload = omega arith;
  username = omega arith;
  filename = omega arith;
}

-- A client after its handshake with the toy server.
abbrev pub fresh_client : ClientV2
fresh_client = record {
  cipher = toy_cipher;
  username = 98 ∷ 111 ∷ 98 ∷ [];
  max_frame_size = max_frame_size_v2;
  send_seq = 0;
  recv_seq = 0;
}
