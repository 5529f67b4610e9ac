-- ===== src/Tests/Wires.antt =====
-- What a server and a client put out, on concrete connections.
use atxp.Common.{ℕ, ◌≡◌, Option, some, List, ◌++◌, ◌∷◌, [], arith}
use atxp.Wire.{Bytes}
use atxp.Conn.{World, Call}
use atxp.Crypto.{gcm_cipher}
use atxp.Frame.Output.{written, Emits}
use atxp.Server.{Session, handle_connection}
use atxp.Server.Output.{reply_plaintexts}
use atxp.Server.Wire.{Output, handle_connection-Output}
use atxp.Exchange.Peers.{numbered}
use atxp.Exchange.Dialogue.{call_all}
use atxp.Exchange.Wire.{envelopes}
use atxp.Exchange.Nonces.{new_client_v2-Emits}
use atxp.Client.{new_client_v2}
use atxp.Tests.Data.{box_of_option, toy_crypto, toy_server, fresh_client, blank_message}
use atxp.Tests.Timeouts.{client_made}
use atxp.Tests.Connections.{shaking_world, replayed_world, replayed_length}
use atxp.Tests.Dialogues.{two_calls}

handle_connection-Output_example :
    (q : Session (Option Bytes) ℕ × World) × (handle_connection ⦃box = box_of_option⦄ blank_message
        0 toy_crypto 200 toy_server replayed_world
      ≡ some q)
    × ((calls : List Call) × (q.1.conn.trace ≡ replayed_world.conn.trace ++ calls)
        × Output toy_crypto toy_server.v replayed_world.entropy
            (reply_plaintexts q.0.history)
            (written calls))
handle_connection-Output_example =
    handle_connection-Output ⦃box = box_of_option⦄ blank_message 0 toy_server toy_crypto 200
      replayed_world (rw replayed_length (omega arith))

new_client_v2-Emits_example :
    (a : toy_crypto.Aead) × (fresh_client.cipher ≡ gcm_cipher toy_crypto a)
    × Emits toy_crypto a fresh_client.max_frame_size shaking_world
        (envelopes ⦃box = box_of_option⦄ (numbered box_of_option two_calls fresh_client))
        (call_all box_of_option two_calls fresh_client
          (new_client_v2 toy_crypto (112 ∷ 119 ∷ []) (98 ∷ 111 ∷ 98 ∷ []) [] shaking_world).1).2
new_client_v2-Emits_example =
    new_client_v2-Emits toy_crypto (112 ∷ 119 ∷ []) (98 ∷ 111 ∷ 98 ∷ []) [] box_of_option two_calls
      fresh_client shaking_world client_made
