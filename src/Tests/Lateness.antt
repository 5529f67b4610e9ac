-- ===== src/Tests/Lateness.antt =====
-- Instances of the theorems on the responses that a client takes from a hostile network, or late.
use atxp.Common.{
  ℕ, ◌≡◌, refl, subst, Bool, true, false, Option, List, [], ◌∷◌, ◌++◌, ◌||◌, map, eq_bytes,
  eq_bytes→eq, arith, inl, inr, ◌⊎◌,
}
use atxp.Common.Subsequence.{Subsequence}
use atxp.Errors.{Result, ok, err, other, wrap}
use atxp.Wire.{Bytes, append_uint32, append_uint64, append_field}
use atxp.Conn.{
  World, Event, arrive, fail, arm_read, arm_write, write_bytes, read_full, read_loop, rand_read,
  random_bytes,
}
use atxp.Conn.Consumes.{arriving}
use atxp.Crypto.{gcm_cipher, seal_gcm, open_gcm}
use atxp.Message.{Message, ResponseCode, ok_code, error_code, document, url}
use atxp.Envelope.{serialize_v2, serialize_response_v2}
use atxp.Frame.{
  frame_of, send_message_frame, write_frame, write_sealed, read_frame, read_sealed,
  send_response_frame, receive_response_frame, max_frame_size_v2,
}
use atxp.Frame.Transfer.{sent_between}
use atxp.Exchange.{sending}
use atxp.Exchange.Peers.{Call}
use atxp.Exchange.Dialogue.{call_all}
use atxp.Exchange.Late.{message_for, left_behind, world_failed, call_all_late}
use atxp.Network.{Unforged}
use atxp.Network.Replies.{accepted, code_seen, call_all-Subsequence}
use atxp.Tests.Data.{
  fresh_client, box_of_option, toy_crypto, toy_cipher, toy_cipher-IsSound, world_of,
}
use atxp.Tests.Infixes.{all_fronts, all_infixes, all_infixes-append}

abbrev pub report : Call ℕ
report = record { type = document; body = 104 ∷ 105 ∷ []; filename = 102 ∷ []; user = 7 }

abbrev pub notice : Call ℕ
notice = record { type = url; body = 104 ∷ []; filename = []; user = 7 }

-- The frame of a response.
abbrev response_bytes : ResponseCode → ℕ → Bytes
response_bytes code seq =
    sent_between (world_of [])
      (send_response_frame toy_cipher code seq max_frame_size_v2 (world_of [])).1

-- The first read fails, and then the first response comes in.
abbrev late_events : List Event
late_events = arrive (response_bytes ok_code 1) ∷ []

abbrev late_world : World
late_world = world_of (fail (other 7) ∷ late_events)

report_sent :
    (sending ⦃box = box_of_option⦄ fresh_client
      (message_for box_of_option report fresh_client)
      late_world).0
    ≡ ok 63
unfolding send_message_frame serialize_v2 write_frame write_sealed arm_write write_bytes frame_of
    gcm_cipher seal_gcm rand_read random_bytes toy_crypto append_uint32 append_uint64 append_field
report_sent = refl

notice_sent :
    (sending ⦃box = box_of_option⦄
      (left_behind fresh_client)
      (message_for box_of_option notice (left_behind fresh_client))
      (world_failed box_of_option report fresh_client late_world)).0
    ≡ ok 61
unfolding send_message_frame serialize_v2 write_frame write_sealed arm_write write_bytes frame_of
    gcm_cipher seal_gcm rand_read random_bytes toy_crypto append_uint32 append_uint64 append_field
    receive_response_frame read_frame read_sealed read_full read_loop arm_read
notice_sent = refl

response_sent : (send_response_frame toy_cipher ok_code 1 max_frame_size_v2 (world_of [])).0 ≡ ok tt
unfolding send_response_frame serialize_response_v2 write_frame write_sealed arm_write write_bytes
    frame_of gcm_cipher seal_gcm rand_read random_bytes toy_crypto append_uint32 append_uint64
response_sent = refl

call_all_late_example :
    (call_all box_of_option (report ∷ notice ∷ []) fresh_client late_world).0
    ≡ err (wrap "atxp.ClientV2.send" (other 7)) ∷ ok ok_code ∷ []
call_all_late_example =
    call_all_late box_of_option report notice fresh_client max_frame_size_v2 ok_code 63 61 (other 7)
      late_events [] late_world (world_of []) toy_cipher-IsSound refl (omega arith) (omega arith)
      refl report_sent refl notice_sent response_sent refl

-- The first response comes twice, and then the second one.
abbrev pub hostile_world : World
hostile_world = world_of (
    fail (other 7)
    ∷ arrive (response_bytes ok_code 1)
    ∷ arrive (response_bytes ok_code 1 ++ response_bytes error_code 2)
    ∷ [])

abbrev pub sent_responses : List (ℕ × ResponseCode)
sent_responses = (1, ok_code) ∷ (2, error_code) ∷ []

abbrev first_envelope : Bytes
first_envelope = serialize_response_v2 ok_code 1

abbrev second_envelope : Bytes
second_envelope = serialize_response_v2 error_code 2

-- An error, or the plaintext of one of the two responses.
abbrev is_opened : Result Bytes → Bool
is_opened (err e) = true
is_opened (ok p) = eq_bytes p first_envelope || eq_bytes p second_envelope

abbrev opens_to_sent : Bytes → Bool
opens_to_sent sealed = is_opened (toy_cipher.open_sealed sealed)

no_forgery : all_infixes opens_to_sent (arriving hostile_world.conn.incoming) ≡ true
unfolding all_infixes all_fronts send_response_frame serialize_response_v2 write_frame write_sealed
    arm_write write_bytes frame_of gcm_cipher seal_gcm open_gcm rand_read random_bytes toy_crypto
    append_uint32 append_uint64
no_forgery = refl

||-cases : (a b : Bool) → (a || b) ≡ true → (a ≡ true) ⊎ (b ≡ true)
||-cases true b h = inl refl
||-cases false b h = inr h

pub hostile_Unforged :
    (sent : List (ℕ × Message (Option Bytes)))
    → Unforged {O = Option Bytes} ⦃box = box_of_option⦄ toy_cipher sent sent_responses
        (arriving hostile_world.conn.incoming)
hostile_Unforged sent = record {
  opens = λ front sealed rest plaintext e o.
      let fits =
        all_infixes-append opens_to_sent front sealed rest
          (subst (λ t. all_infixes opens_to_sent t ≡ true) e no_forgery) in
      elim (||-cases (eq_bytes plaintext first_envelope) (eq_bytes plaintext second_envelope)
        (subst (λ r. is_opened r ≡ true) o fits)) [
          | inl first ↦ inr ((1, ok_code), inl refl, eq_bytes→eq plaintext first_envelope first)
          | inr second ↦
              inr ((2, error_code), inr (inl refl), eq_bytes→eq plaintext second_envelope second)
        ];
}

call_all-Subsequence_example :
    Subsequence
      (accepted
        (call_all box_of_option (report ∷ notice ∷ report ∷ []) fresh_client hostile_world).0)
      (map code_seen sent_responses)
call_all-Subsequence_example =
    call_all-Subsequence ⦃box = box_of_option⦄ [] sent_responses (omega arith, (omega arith, tt))
      (report ∷ notice ∷ report ∷ []) fresh_client 0 hostile_world (omega arith, (omega arith, tt))
      (hostile_Unforged [])
