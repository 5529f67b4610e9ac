-- ===== src/Frame/Bounds.antt =====
-- `readFrame` on any stream: the calls it makes, the buffers it reads into, and the cap as a uint32.
use atxp.Common.{
  ℕ, ◌+◌, ◌≤◌, ◌<◌, ◌≡◌, ◌≢◌, refl, ◌∙◌, List, [], ◌∷◌, ◌++◌, ltb, max, All, arith, append_assoc,
  Bool-cases, Option-cases, inl, inr,
}
use atxp.Common.Int.{ℤ, to_uint32}
use atxp.Errors.{ok}
use atxp.Wire.{Bytes, uint32}
use atxp.Conn.{World, Call, Io, set_read_deadline, read, arm_read, read_full, next_fault, ◌>>=◌}
use atxp.Conn.Trace.{Makes, Makes-throw, Makes-if, Makes-bind, Makes-read_full, Makes-lift}
use atxp.Crypto.{Cipher, nonce_size, gcm_tag_size}
use atxp.Frame.{read_frame, read_sealed, default_io_timeout, length_prefix_size}

-- The call is a read into a buffer of at most `n` bytes.
abbrev pub ReadsUpTo : ℕ → Call → Type 0
ReadsUpTo n (read k) = k ≤ n
ReadsUpTo n _ = ⊥

module _ (c : Cipher) (max_frame_size : ℤ) where
  -- `readFrame` behind the deadline
  abbrev read_body : Io Bytes
  read_body =
      read_full length_prefix_size >>= λ len_buf. read_sealed c (uint32 len_buf) max_frame_size

  read_sealed-Makes :
      (n : ℕ)
      → Makes (ReadsUpTo (max 4 (to_uint32 max_frame_size))) (read_sealed c n max_frame_size)
  unfolding read_sealed
  read_sealed-Makes n = elim (Bool-cases (ltb (to_uint32 max_frame_size) n)) [
    | inl big ↦ rw big (Makes-throw _ _)
    | inr fits ↦ rw fits (
        Makes-if _ _ _ _ (Makes-throw _ _)
          (Makes-bind _ _ _ (Makes-read_full _ n (λ k le. ground arith)) (λ s. Makes-lift _ _)))
  ]

  read_body-Makes : Makes (ReadsUpTo (max 4 (to_uint32 max_frame_size))) read_body
  read_body-Makes =
      Makes-bind _ _ _ (Makes-read_full _ 4 (λ k le. omega arith))
        (λ b. read_sealed-Makes (uint32 b))

  -- Whatever comes in, `readFrame` sets the read deadline of 30 seconds before it reads, and no
  -- call of Read is into a buffer of more than the cap (or the four bytes of the length).
  pub read_frame_reads :
      (w : World)
      → (reads : List Call) × ((read_frame c max_frame_size w).1.conn.trace
          ≡ w.conn.trace ++ set_read_deadline default_io_timeout ∷ reads)
        × All (ReadsUpTo (max 4 (to_uint32 max_frame_size))) reads
  unfolding read_frame arm_read
  read_frame_reads w =
      let (reads, p, within) = read_body-Makes.at (arm_read default_io_timeout w).1 in
      elim (Option-cases (next_fault w.conn.deadline_faults).0) [
        | inl works ↦ rw works (
          reads,
          p ∙ append_assoc w.conn.trace (set_read_deadline default_io_timeout ∷ []) reads,
          within,
        )
        | inr (e, fails) ↦ rw fails ([], refl, tt)
      ]

  -- With a cap that is below a nonce and a tag as a uint32, `readFrame` never returns a plaintext.
  pub read_frame_low_cap :
      (w : World) (plaintext : Bytes)
      → to_uint32 max_frame_size < nonce_size + gcm_tag_size
      → (read_frame c max_frame_size w).0 ≢ ok plaintext
  unfolding read_frame read_sealed
  read_frame_low_cap w plaintext low h = ground arith
