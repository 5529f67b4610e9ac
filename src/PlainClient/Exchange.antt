-- ===== src/PlainClient/Exchange.antt =====
-- The calls of the client of version 1: what each sends, and what it returns when that fails.
use Prim.Native.String.{String}
use atxp.Common.{ℕ, ◌≡◌, refl, ap, ◌∙◌, false, some, [], ◌∷◌, ◌++◌, length, ◌==◌, arith}
use atxp.Errors.{Error, ok, err, wrap}
use atxp.Wire.{Bytes}
use atxp.Conn.{World, Io, write, write_bytes}
use atxp.Message.{Box, Message, ResponseCode, url, document, notification}
use atxp.Packet.{serialize, deserialize, decoded}
use atxp.Transport.{send_packet}
use atxp.Response.{receive_response}
use atxp.PlainClient.{
  Client, packet_message, await_response, send_and_await, post_url, post_document,
  post_notification,
}

-- A call of one of the three methods.
pub data Request : Type 0 where
  for_url : Bytes → Request
  for_document : Bytes → Bytes → Request
  for_notification : Bytes → Request

-- What the error of a call is wrapped in.
abbrev pub complaint : Request → String
complaint (for_url address) = "failed to send URL frame"
complaint (for_document body filename) = "failed to send document frame"
complaint (for_notification text) = "failed to send notification frame"

module _ {O : Type 0} ⦃box : Box O⦄ where
  -- The message of a call.
  abbrev pub requested : Request → Client → Message O
  requested (for_url address) c = packet_message c url address []
  requested (for_document body filename) c = packet_message c document body filename
  requested (for_notification text) c = packet_message c notification text []

  send_packet_writes :
      (m : Message O) (w : World)
      → (part : Bytes) × ((send_packet (some m) w).2.conn.trace ≡ w.conn.trace ++ write part ∷ [])
        × ((send_packet (some m) w).2.conn.incoming ≡ w.conn.incoming)
  unfolding send_packet write_bytes serialize
  send_packet_writes m w = (_, refl, refl)

module _ {O : Type 0} (box : Box O) where
  abbrev pub perform : Request → Client → Io ResponseCode
  perform (for_url address) c = post_url box c address
  perform (for_document body filename) c = post_document box c body filename
  perform (for_notification text) c = post_notification box c text

  perform_lem :
      (r : Request) (c : Client) (w : World)
      → perform r c w ≡ (
          let q = send_packet ⦃box = box⦄ (some (requested ⦃box = box⦄ r c)) w in
          await_response (complaint r) q.0 q.2)
  unfolding post_url post_document post_notification send_and_await
  perform_lem (for_url address) c w = refl
  perform_lem (for_document body filename) c w = refl
  perform_lem (for_notification text) c w = refl

  pub perform_sent :
      (r : Request) (c : Client) (w : World) (n : ℕ)
      → (send_packet ⦃box = box⦄ (some (requested ⦃box = box⦄ r c)) w).0 ≡ ok n
      → perform r c w
        ≡ receive_response (send_packet ⦃box = box⦄ (some (requested ⦃box = box⦄ r c)) w).2
  perform_sent r c w n sent =
      perform_lem r c w
      ∙ ap
          (λ x.
            await_response (complaint r) x
              (send_packet ⦃box = box⦄ (some (requested ⦃box = box⦄ r c)) w).2)
          sent

  pub requested-auth : (r : Request) (c : Client) → (requested ⦃box = box⦄ r c).auth ≡ c.auth
  requested-auth (for_url address) c = refl
  requested-auth (for_document body filename) c = refl
  requested-auth (for_notification text) c = refl

  -- A call of a method of the version 1 client whose packet cannot be written returns the error of the
  -- write, wrapped in the method's words, does nothing on the connection but that one write, and reads
  -- nothing from it.
  pub perform_fails :
      (r : Request) (c : Client) (w : World) (e : Error)
      → (send_packet ⦃box = box⦄ (some (requested ⦃box = box⦄ r c)) w).0 ≡ err e
      → ((perform r c w).0 ≡ err (wrap (complaint r) e))
        × ((part : Bytes) × ((perform r c w).1.conn.trace ≡ w.conn.trace ++ write part ∷ []))
        × ((perform r c w).1.conn.incoming ≡ w.conn.incoming)
  perform_fails r c w e h =
      let q = send_packet ⦃box = box⦄ (some (requested ⦃box = box⦄ r c)) w in
      let same = perform_lem r c w ∙ ap (λ x. await_response (complaint r) x q.2) h in
      let (part, trace, left) = send_packet_writes ⦃box = box⦄ (requested ⦃box = box⦄ r c) w in
      (
        ap (λ p. p.0) same,
        (part, ap (λ p. p.1.conn.trace) same ∙ trace),
        ap (λ p. p.1.conn.incoming) same ∙ left,
      )

module _ {O : Type 0} ⦃box : Box O⦄ (blank : Message O) where
  pub deserialize-nonempty :
      (raw : Bytes) (msg : Message O)
      → deserialize raw (some blank) ≡ decoded msg
      → (length raw == 0) ≡ false
  unfolding deserialize
  deserialize-nonempty [] msg h = cc
  deserialize-nonempty (x ∷ raw) msg h = ground arith
