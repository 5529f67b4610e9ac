-- ===== src/Exchange/Deadlines.antt =====
-- The client of version 2 never waits without a deadline.
use atxp.Conn
use atxp.Conn.Guarded.{Guarded}
use atxp.Crypto.{Crypto}
use atxp.Message.{Message}
