-- ===== src/Tests/Mails.antt =====
-- A run of the server of version 2 on two messages of a client.
use atxp.Common.{◌≡◌, refl, ◌∙◌, append-nil, Option, some, [], ◌∷◌, ℕ, All, arith}
use atxp.Errors.{ok}
use atxp.Wire.{Bytes, append_uint32, append_uint64, append_field}
use atxp.Conn.{World, arm_write, write_bytes, rand_read, random_bytes}
use atxp.Conn.Stream.{stream}
use atxp.Crypto.{derive_key, new_gcm_cipher, gcm_cipher, seal_gcm}
use atxp.Envelope.{serialize_v2}
use atxp.Frame.{frame_of, send_message_frame, write_frame, write_sealed, max_frame_size_v2}
use atxp.Endpoint.{server_handshake, cipher_from_salt, handshake_header}
use atxp.Server.{fresh_session, handle_connection}
use atxp.Server.Mail.{Mail, Rising, AllSent, mail_bytes, IsWelcome, all_settled}
use atxp.Server.Answers.{handle_connection-all_settled}
use atxp.Tests.Data.{
  box_of_option, toy_crypto, toy_cipher, toy_server, toy_endpoint, world_of, in_pieces,
  in_pieces-stream, blank_message, sample_message, sample_Fits,
}

abbrev two_mails : Mail (Option Bytes) ℕ
two_mails = (sample_message, 1, 7) ∷ (sample_message, 2, 7) ∷ []

abbrev mailed_world : World
mailed_world =
    in_pieces
      (mail_bytes ⦃box = box_of_option⦄ toy_cipher max_frame_size_v2 two_mails (world_of []))

mails_sent : AllSent ⦃box = box_of_option⦄ toy_cipher max_frame_size_v2 two_mails (world_of [])
unfolding send_message_frame serialize_v2 write_frame write_sealed arm_write write_bytes frame_of
    gcm_cipher seal_gcm rand_read random_bytes toy_crypto append_uint32 append_uint64 append_field
mails_sent = ((63, refl), ((63, refl), tt))

mails_arrive :
    stream mailed_world.conn.incoming
    ≡ mail_bytes ⦃box = box_of_option⦄ toy_cipher max_frame_size_v2 two_mails (world_of [])
mails_arrive =
    in_pieces-stream
      (mail_bytes ⦃box = box_of_option⦄ toy_cipher max_frame_size_v2 two_mails (world_of []))
    ∙ append-nil _

shaken : (server_handshake toy_crypto toy_endpoint mailed_world).0 ≡ ok toy_cipher
unfolding server_handshake cipher_from_salt derive_key new_gcm_cipher handshake_header arm_write
    write_bytes rand_read random_bytes toy_crypto
shaken = refl

All-IsWelcome : All (IsWelcome ⦃box = box_of_option⦄ 0 toy_server) two_mails
All-IsWelcome = ((sample_Fits 1 (omega arith), refl), ((sample_Fits 2 (omega arith), refl), tt))

rising : Rising 0 two_mails
rising = (omega arith, (omega arith, tt))

handle_connection-all_settled_example :
    (v : World) × (handle_connection ⦃box = box_of_option⦄ blank_message 0 toy_crypto 3 toy_server
        mailed_world
      ≡ some (all_settled ⦃box = box_of_option⦄ 0 toy_server two_mails fresh_session, v))
handle_connection-all_settled_example =
    handle_connection-all_settled ⦃box = box_of_option⦄ 0 toy_server blank_message toy_crypto
      toy_cipher max_frame_size_v2 two_mails 3 (world_of []) mailed_world shaken refl mails_sent
      mails_arrive refl All-IsWelcome rising (omega arith)
