-- ===== src/Server/Promises.antt =====
-- What `HandleConnection` promises of every connection, in terms of what it has done on it.
use atxp.Common.{ℕ, ◌<◌, ◌≡◌, some, length, All}
use atxp.Conn.{World}
use atxp.Conn.Stream.{stream}
use atxp.Crypto.{Crypto}
use atxp.Message.{Box, Message}
use atxp.Server.{Session, ServerV2, handle_connection}
use atxp.Server.Spec.{
  Rises, Counts, dispatched_seqs, reply_seqs, Reaches-seqs, Permitted, Reaches-Permitted,
}
use atxp.Server.Connection.{handle_connection-IsHandled}

module _ {O D : Type 0} ⦃box : Box O⦄ (blank : Message O) (no_auth : D) (cr : Crypto) where
  -- On every connection, whatever comes in and whichever calls fail: with more fuel than there are
  -- bytes in the stream `HandleConnection` returns; the sequence numbers of the frames that it gave
  -- to handlers rise strictly, from above 0, so no frame is handled twice; and its replies are
  -- numbered 1, 2, 3 and so on, modulo 2^64.
  pub handle_connection_seqs :
      (fuel : ℕ) (s : ServerV2 O D) (w : World)
      → length (stream w.conn.incoming) < fuel
      → (q : Session O D × World) × (handle_connection blank no_auth cr fuel s w ≡ some q)
        × Rises 0 (dispatched_seqs q.0.history) q.0.recv_seq
        × Counts 0 (reply_seqs q.0.history) q.0.send_seq
  handle_connection_seqs fuel s w lt =
      let (q, e, h) = handle_connection-IsHandled no_auth s blank cr fuel w lt in
      let (rising, counted) = Reaches-seqs no_auth s h.next q.0 h.reached in (q, e, rising, counted)

  -- On every connection, whatever comes in and whichever calls fail: with more fuel than there are
  -- bytes in the stream `HandleConnection` returns; every frame that it gave to a handler was
  -- authorized, with the data that the handler got (the zero value if there is no authorization
  -- function), and a handler was registered for its type.
  pub handle_connection-Permitted :
      (fuel : ℕ) (s : ServerV2 O D) (w : World)
      → length (stream w.conn.incoming) < fuel
      → (q : Session O D × World) × (handle_connection blank no_auth cr fuel s w ≡ some q)
        × All (Permitted no_auth s) q.0.history
  handle_connection-Permitted fuel s w lt =
      let (q, e, h) = handle_connection-IsHandled no_auth s blank cr fuel w lt in
      (q, e, Reaches-Permitted no_auth s h.next q.0 h.reached)
