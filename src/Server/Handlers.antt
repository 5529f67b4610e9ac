-- ===== src/Server/Handlers.antt =====
-- The handlers of the server.
use atxp.Common.{◌≡◌, some, if◌then◌else◌}
use atxp.Common.Int.{eq_int}
use atxp.Common.Table.{lookup-insert}
use atxp.Message.{Mt}
use atxp.Server.{Handler, ServerV2, register_handler, find_handler}

module _ {O D : Type 0} where
  -- Behind `RegisterHandler` the handler is found for its message type, in place of an earlier one,
  -- and every other type has the handler that it had.
  pub find_handler-register_handler :
      (registered asked : Mt) (handler : Handler O D) (s : ServerV2 O D)
      → find_handler (register_handler registered handler s) asked
        ≡ (if eq_int registered asked then some handler else find_handler s asked)
  unfolding find_handler register_handler
  find_handler-register_handler registered asked handler s =
      lookup-insert registered asked handler s.handlers
