-- ===== src/Tests/Sessions.antt =====
-- A conversation of two calls over a hostile network: the frame of the second call is lost and that of the
-- first comes twice; the read of the first response fails, and that response comes twice too.
use atxp.Common.{
  ℕ, ◌≡◌, refl, sym, ap, ◌∙◌, subst, Option, none, some, List, [], ◌∷◌, map, inl, arith,
}
use atxp.Common.Table.{lookup}
use atxp.Common.Subsequence.{Subsequence}
use atxp.Errors.{ok}
use atxp.Wire.{
  Bytes, append_uint32, append_uint64, append_field, uint32, uint64, read_byte, read_uint32,
  read_uint64, read_field, read_bytes, done,
}
use atxp.Conn.{
  World, arm_read, arm_write, write_bytes, read_full, read_loop, rand_read, random_bytes,
}
use atxp.Conn.Consumes.{arriving}
use atxp.Crypto.{gcm_cipher, seal_gcm, open_gcm, derive_key, new_gcm_cipher}
use atxp.Message.{ResponseCode}
use atxp.Envelope.{serialize_v2, serialize_response_v2, deserialize_v2, read_message}
use atxp.Frame.{
  frame_of, send_message_frame, write_frame, write_sealed, read_frame, read_sealed,
  receive_message_frame, send_response_frame,
}
use atxp.Endpoint.{server_handshake, cipher_from_salt, handshake_header}
use atxp.Client.{message_of}
use atxp.Server.{
  Session, handle_connection, loop, round, handle_frame, admit, dispatch, reply, authorize,
  find_handler,
}
use atxp.Exchange.Peers.{Call, numbered}
use atxp.Exchange.Dialogue.{call_all}
use atxp.Network.{Unforged, seen}
use atxp.Network.Delivery.{deliveries}
use atxp.Network.Replies.{accepted, code_seen}
use atxp.Network.Session.{responses, Authentic, call_all-handle_connection}
use atxp.Tests.Data.{fresh_client, box_of_option, toy_crypto, toy_cipher, toy_server, blank_message}
use atxp.Tests.Connections.{replayed_world, replayed_length}
use atxp.Tests.Networks.{first_envelope, replayed_Unforged, shaken}
use atxp.Tests.Lateness.{report, notice, hostile_world, sent_responses, hostile_Unforged}

abbrev two_calls : List (Call ℕ)
two_calls = report ∷ notice ∷ []

abbrev run : Option (Session (Option Bytes) ℕ × World)
run =
    handle_connection ⦃box = box_of_option⦄ blank_message 0 toy_crypto 200 toy_server replayed_world

abbrev responses_of : Option (Session (Option Bytes) ℕ × World) → List (ℕ × ResponseCode)
responses_of none = []
responses_of (some (st, w)) = responses st.history

run_responses : responses_of run ≡ sent_responses
unfolding handle_connection loop round handle_frame admit dispatch reply authorize find_handler
    server_handshake cipher_from_salt derive_key new_gcm_cipher handshake_header
    receive_message_frame read_frame read_sealed read_full read_loop open_gcm send_response_frame
    arm_read deserialize_v2 read_message read_byte read_uint32 read_uint64 read_field read_bytes
    done serialize_response_v2 uint32 uint64 send_message_frame serialize_v2 write_frame
    write_sealed arm_write write_bytes frame_of gcm_cipher seal_gcm rand_read random_bytes
    toy_crypto append_uint32 append_uint64 append_field lookup
run_responses = refl

report_serialized :
    serialize_v2 ⦃box = box_of_option⦄
      (some (message_of ⦃box = box_of_option⦄ fresh_client report.type report.body report.filename))
      1
    ≡ ok first_envelope
unfolding serialize_v2 append_uint32 append_uint64 append_field
report_serialized = refl

authentic :
    (st : Session (Option Bytes) ℕ) (w : World)
    → run ≡ some (st, w)
    → Authentic ⦃box = box_of_option⦄ blank_message 0 toy_server toy_crypto two_calls fresh_client
        hostile_world replayed_world st
authentic st w e =
    let same : sent_responses ≡ responses st.history = sym run_responses ∙ ap responses_of e in
    record {
      room = rw (← same) (omega arith);
      at_server =
          replayed_Unforged (numbered box_of_option two_calls fresh_client) (responses st.history) _
            (inl refl) report_serialized;
      at_client =
          subst
            (λ replies.
              Unforged ⦃box = box_of_option⦄ toy_cipher
                (numbered box_of_option two_calls fresh_client) replies
                (arriving hostile_world.conn.incoming))
            same (hostile_Unforged (numbered box_of_option two_calls fresh_client));
    }

call_all-handle_connection_example :
    (q : Session (Option Bytes) ℕ × World) × (run ≡ some q)
    × Subsequence
        (deliveries q.0.history)
        (map (seen ⦃box = box_of_option⦄) (numbered box_of_option two_calls fresh_client))
    × Subsequence
        (accepted (call_all box_of_option two_calls fresh_client hostile_world).0)
        (map code_seen (responses q.0.history))
call_all-handle_connection_example =
    call_all-handle_connection ⦃box = box_of_option⦄ blank_message 0 toy_server toy_crypto two_calls
      fresh_client 200 hostile_world replayed_world shaken (omega arith)
      (
        record {
          seq = omega arith;
          code = omega arith;
          payload = omega arith;
          username = omega arith;
          filename = omega arith;
        },
        (
          record {
            seq = omega arith;
            code = omega arith;
            payload = omega arith;
            username = omega arith;
            filename = omega arith;
          },
          tt,
        ),
      )
      (rw replayed_length (omega arith)) authentic
