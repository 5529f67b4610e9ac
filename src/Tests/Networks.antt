-- ===== src/Tests/Networks.antt =====
-- Instances of the theorems on a hostile network.
use atxp.Common.{
  ℕ, ◌≡◌, refl, sym, ap, ◌∙◌, subst, Bool, true, Option, some, List, [], ◌∷◌, map, eq_bytes,
  eq_bytes→eq, arith, inl,
}
use atxp.Common.Subsequence.{IsIn, Subsequence}
use atxp.Errors.{Result, ok, err}
use atxp.Wire.{Bytes, append_uint32, append_uint64, append_field}
use atxp.Conn.{World, arm_write, write_bytes, rand_read, random_bytes}
use atxp.Conn.Consumes.{arriving}
use atxp.Crypto.{derive_key, new_gcm_cipher, gcm_cipher, seal_gcm, open_gcm}
use atxp.Message.{Message, ResponseCode}
use atxp.Envelope.{serialize_v2}
use atxp.Frame.{frame_of, send_message_frame, write_frame, write_sealed}
use atxp.Endpoint.{server_handshake, cipher_from_salt, handshake_header}
use atxp.Server.{Session, handle_connection}
use atxp.Network.{Unforged, seen}
use atxp.Network.Delivery.{deliveries, handle_connection-Subsequence}
use atxp.Tests.Data.{
  box_of_option, toy_crypto, toy_cipher, toy_server, toy_endpoint, blank_message, sample_message,
  sample_Fits,
}
use atxp.Tests.Infixes.{all_fronts, all_infixes, all_infixes-append}
use atxp.Tests.Connections.{replayed_world, replayed_length}

-- The client has sent two messages, of which the second is lost and the first comes twice.
abbrev sent_messages : List (ℕ × Message (Option Bytes))
sent_messages = (1, sample_message) ∷ (2, sample_message) ∷ []

abbrev pub first_envelope : Bytes
first_envelope =
    1 ∷ 0 ∷ 0 ∷ 0 ∷ 0 ∷ 0 ∷ 0 ∷ 0 ∷ 1 ∷ 0 ∷ 0 ∷ 0 ∷ 1 ∷ 0 ∷ 0 ∷ 0 ∷ 2 ∷ 104 ∷ 105 ∷ 0 ∷ 0 ∷ 0 ∷ 3
    ∷ 98 ∷ 111 ∷ 98 ∷ 0 ∷ 0 ∷ 0 ∷ 1 ∷ 102 ∷ []

first_serialized : serialize_v2 ⦃box = box_of_option⦄ (some sample_message) 1 ≡ ok first_envelope
unfolding serialize_v2 append_uint32 append_uint64 append_field
first_serialized = refl

-- An error, or the plaintext.
abbrev is_opened : Bytes → Result Bytes → Bool
is_opened plaintext (err e) = true
is_opened plaintext (ok p) = eq_bytes p plaintext

-- The piece does not open, or opens to the plaintext.
abbrev opens_to : Bytes → Bytes → Bool
opens_to plaintext sealed = is_opened plaintext (toy_cipher.open_sealed sealed)

no_forgery : all_infixes (opens_to first_envelope) (arriving replayed_world.conn.incoming) ≡ true
unfolding all_infixes all_fronts send_message_frame serialize_v2 write_frame write_sealed arm_write
    write_bytes frame_of gcm_cipher seal_gcm open_gcm rand_read random_bytes toy_crypto
    append_uint32 append_uint64 append_field
no_forgery = refl

opens_to_inv :
    (plaintext sealed p : Bytes)
    → opens_to plaintext sealed ≡ true
    → toy_cipher.open_sealed sealed ≡ ok p
    → p ≡ plaintext
opens_to_inv plaintext sealed p h o =
    eq_bytes→eq p plaintext (subst (λ r. is_opened plaintext r ≡ true) o h)

pub replayed_Unforged :
    (sent : List (ℕ × Message (Option Bytes))) (replies : List (ℕ × ResponseCode))
    (m : Message (Option Bytes))
    → IsIn (1, m) sent
    → serialize_v2 ⦃box = box_of_option⦄ (some m) 1 ≡ ok first_envelope
    → Unforged ⦃box = box_of_option⦄ toy_cipher sent replies (arriving replayed_world.conn.incoming)
replayed_Unforged sent replies m i serialized = record {
  opens = λ front sealed rest plaintext e o.
      let same =
        opens_to_inv first_envelope sealed plaintext
          (all_infixes-append (opens_to first_envelope) front sealed rest
            (subst (λ t. all_infixes (opens_to first_envelope) t ≡ true) e no_forgery))
          o in
      inl ((1, m), i, serialized ∙ ap ok (sym same));
}

pub shaken : (server_handshake toy_crypto toy_endpoint replayed_world).0 ≡ ok toy_cipher
unfolding server_handshake cipher_from_salt derive_key new_gcm_cipher handshake_header arm_write
    write_bytes rand_read random_bytes toy_crypto
shaken = refl

handle_connection-Subsequence_example :
    (q : Session (Option Bytes) ℕ × World) × (handle_connection ⦃box = box_of_option⦄ blank_message
        0 toy_crypto 200 toy_server replayed_world
      ≡ some q)
    × Subsequence (deliveries q.0.history) (map (seen ⦃box = box_of_option⦄) sent_messages)
handle_connection-Subsequence_example =
    handle_connection-Subsequence ⦃box = box_of_option⦄ blank_message 0 toy_server toy_crypto
      sent_messages [] (sample_Fits 1 (omega arith), (sample_Fits 2 (omega arith), tt)) 200
      replayed_world (omega arith, (omega arith, tt))
      (λ c h.
        let same : toy_cipher ≡ c = cc (shaken, h) in
        subst
          (λ k.
            Unforged ⦃box = box_of_option⦄ k sent_messages []
              (arriving replayed_world.conn.incoming))
          same (replayed_Unforged sent_messages [] sample_message (inl refl) first_serialized))
      (rw replayed_length (omega arith))
