-- ===== src/Server/Deadlines.antt =====
-- `HandleConnection` never waits without a deadline.
use atxp.Common.{ℕ}
use atxp.Common.Int.{ℤ}
use atxp.Conn.Deadline.{idle}
use atxp.Conn.Guarded.{Guarded, Guarded-bind, deadline_rules}
use atxp.Crypto.{Crypto, Cipher}
use atxp.Message.{Message, ResponseCode}
use atxp.Frame.{send_response_frame}
use atxp.Endpoint.{V2}
use atxp.Endpoint.Deadlines.{IsTimeout, write_frame-Guarded}

module _ (v : V2) where
  pub send_response_frame-Guarded :
      (c : Cipher) (code : ResponseCode) (seq : ℕ) (cap : ℤ)
      → Guarded (IsTimeout v) idle (send_response_frame c code seq cap)
  unfolding send_response_frame
  send_response_frame-Guarded c code seq cap =
      search (deadline_rules, Guarded-bind, write_frame-Guarded)
