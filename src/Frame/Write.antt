-- ===== src/Frame/Write.antt =====
-- `writeFrame`: what it puts on the wire.
use atxp.Common.{ℕ, ◌≡◌, refl, ap, true, false, none, [], ◌∷◌, ◌++◌, length, arith, append_assoc}
use atxp.Common.Int.{ℤ, pos, le_int}
use atxp.Errors.{ok, err, sentinel, err_frame_too_large}
use atxp.Wire.{Bytes}
use atxp.Conn.{
  World, Entropy, set_write_deadline, write, arm_write, write_bytes, next_fault, wrap_err,
  on_entropy,
}
use atxp.Conn.Trace.{bind_inv, wrapped_inv}
use atxp.Crypto.{Cipher}
use atxp.Frame.{frame_of, write_frame, write_sealed, default_io_timeout}

-- The next deadline and the next write succeed.
abbrev pub WritesWork : World → Type 0
WritesWork w =
    ((next_fault w.conn.deadline_faults).0 ≡ none) × ((next_fault w.conn.write_faults).0 ≡ none)

write_sealed_inv :
    (sealed : Bytes) (max_frame_size : ℤ) (w : World) (n : ℕ)
    → (write_sealed sealed max_frame_size w).0 ≡ ok n
    → (le_int (pos (length sealed)) max_frame_size ≡ true) × WritesWork w
unfolding write_sealed arm_write write_bytes
write_sealed_inv sealed max_frame_size w n h = ground arith

module _ (c : Cipher) (max_frame_size : ℤ) where
  -- When the plaintext is sealed, the result fits the cap and the connection works, `writeFrame`
  -- succeeds: it sets the write deadline of 30 seconds, then writes the whole frame at once, returns
  -- the number of its bytes, and leaves what is to be read alone.
  pub write_frame_lem :
      (plaintext sealed : Bytes) (e' : Entropy) (w : World)
      → c.seal plaintext w.entropy ≡ (ok sealed, e')
      → le_int (pos (length sealed)) max_frame_size ≡ true
      → WritesWork w
      → ((write_frame c plaintext max_frame_size w).0 ≡ ok (length (frame_of sealed)))
        × ((write_frame c plaintext max_frame_size w).1.conn.trace
            ≡ w.conn.trace ++ set_write_deadline default_io_timeout ∷ write (frame_of sealed) ∷ [])
        × ((write_frame c plaintext max_frame_size w).1.conn.incoming ≡ w.conn.incoming)
  unfolding write_frame write_sealed arm_write write_bytes
  write_frame_lem plaintext sealed e' w s fits (d, k) =
      rw (s, fits, d, k)
        (
          refl,
          append_assoc w.conn.trace (set_write_deadline default_io_timeout ∷ [])
              (write (frame_of sealed) ∷ []),
          refl,
        )

  -- A sealed plaintext above the cap is refused, and nothing is called on the connection.
  pub write_frame_too_large :
      (plaintext sealed : Bytes) (e' : Entropy) (w : World)
      → c.seal plaintext w.entropy ≡ (ok sealed, e')
      → le_int (pos (length sealed)) max_frame_size ≡ false
      → write_frame c plaintext max_frame_size w
        ≡ (err (sentinel err_frame_too_large), record w { entropy = e' })
  unfolding write_frame write_sealed
  write_frame_too_large plaintext sealed e' w s large = rw (s, large)

  -- What `write_frame` put out when it succeeded, and that it had to fit the cap.
  pub write_frame_inv :
      (plaintext : Bytes) (w : World) (n : ℕ)
      → (write_frame c plaintext max_frame_size w).0 ≡ ok n
      → (sealed : Bytes) × (e' : Entropy) × (c.seal plaintext w.entropy ≡ (ok sealed, e'))
        × (le_int (pos (length sealed)) max_frame_size ≡ true)
        × WritesWork w
  unfolding write_frame
  write_frame_inv plaintext w n h =
      let (sealed, e, h') =
        bind_inv (wrap_err "atxp.writeFrame" (on_entropy (c.seal plaintext)))
          (λ sealed. write_sealed sealed max_frame_size) w h in
      let e' : (c.seal plaintext w.entropy).0 ≡ ok sealed = wrapped_inv "atxp.writeFrame" _ e in
      let (fits, works) = write_sealed_inv sealed max_frame_size _ n h' in
      (
        sealed,
        (c.seal plaintext w.entropy).1,
        ap (λ r. (r, (c.seal plaintext w.entropy).1)) e',
        fits,
        works,
      )
