-- ===== src/Frame/Read.antt =====
-- `readFrame`: what it makes of a stream that holds a frame, and how much it reads of any stream.
use atxp.Common.{
  ℕ, ◌+◌, ◌%◌, ◌^◌, ◌≤◌, ◌<◌, ◌≡◌, refl, sym, ap, ◌∙◌, none, [], ◌++◌, length, ltb, arith,
  append_assoc, append-nil, length-append, take-append, drop-append, take-append-drop, length-take,
  Bool-cases, ◌⊎◌, inl, inr, le→ltb, ltb→le, if◌then◌else◌,
}
use native.Mathlib.Decide.{dec_le}
use atxp.Common.Int.{ℤ, to_uint32, to_uint32-lt}
use atxp.Errors.{ok, err, sentinel, err_frame_too_large, err_frame_too_small}
use atxp.Wire.{Bytes, append_uint32, uint32}
use atxp.Wire.Words.{uint32-append_uint32}
use atxp.Conn.{World, Io, arm_read, read_full, next_fault, lift, wrap_err, ◌>>=◌}
use atxp.Conn.Stream.{stream, read_loop_enough, read_loop_short}
use atxp.Conn.Trace.{bind_inv, bind_ok}
use atxp.Crypto.{Cipher, nonce_size, gcm_tag_size}
use atxp.Frame.{frame_of, read_frame, read_sealed, default_io_timeout, length_prefix_size}

-- The next call that sets a deadline succeeds.
abbrev pub DeadlineWorks : World → Type 0
DeadlineWorks w = (next_fault w.conn.deadline_faults).0 ≡ none

-- `io.ReadFull` on a stream that begins with the bytes wanted.
pub read_full-append :
    (w : World) (front rest : Bytes)
    → stream w.conn.incoming ≡ front ++ rest
    → ((read_full (length front) w).0 ≡ ok front)
      × (stream (read_full (length front) w).1.conn.incoming ≡ rest)
unfolding read_full
read_full-append w front rest h =
    let (r, s, e) =
      read_loop_enough (length front) [] w.conn.incoming (rw (h, length-append) (omega arith)) in
    (r ∙ rw (h, take-append), s ∙ rw (h, drop-append))

-- `io.ReadFull` that succeeds returns as many bytes as were asked for, the first of the stream.
pub read_full_inv :
    (n : ℕ) (w : World) (bs : Bytes)
    → (read_full n w).0 ≡ ok bs
    → (stream w.conn.incoming ≡ bs ++ stream (read_full n w).1.conn.incoming) × (length bs ≡ n)
unfolding read_full
read_full_inv n w bs h = elim (dec_le n (length (stream w.conn.incoming))) [
  | yes enough ↦
      let (r, s, e) = read_loop_enough n [] w.conn.incoming enough in
      ground
        (arith, take-append-drop n (stream w.conn.incoming), length-take n (stream w.conn.incoming))
  | no short ↦ cc (read_loop_short n [] w.conn.incoming (omega arith))
]

module _ (c : Cipher) (max_frame_size : ℤ) where
  -- Past the two size checks the sealed bytes are read and opened.
  read_sealed-append :
      (w : World) (sealed rest : Bytes)
      → length sealed ≤ to_uint32 max_frame_size
      → nonce_size + gcm_tag_size ≤ length sealed
      → stream w.conn.incoming ≡ sealed ++ rest
      → ((read_sealed c (length sealed) max_frame_size w).0 ≡ c.open_sealed sealed)
        × (stream (read_sealed c (length sealed) max_frame_size w).1.conn.incoming ≡ rest)
  unfolding read_sealed
  read_sealed-append w sealed rest le ge h =
      let (r, s) = read_full-append w sealed rest h in
      rw (le→ltb (to_uint32 max_frame_size) (length sealed) le, le→ltb (length sealed) 28 ge)
        (ground arith)

  -- On a stream that begins with the frame of a sealed plaintext, however it is cut into reads,
  -- `readFrame` returns what the cipher opens, and leaves what follows the frame.
  pub read_frame-frame_of :
      (w : World) (sealed rest : Bytes)
      → DeadlineWorks w
      → length sealed ≤ to_uint32 max_frame_size
      → nonce_size + gcm_tag_size ≤ length sealed
      → stream w.conn.incoming ≡ frame_of sealed ++ rest
      → ((read_frame c max_frame_size w).0 ≡ c.open_sealed sealed)
        × (stream (read_frame c max_frame_size w).1.conn.incoming ≡ rest)
  unfolding read_frame frame_of arm_read append_uint32
  read_frame-frame_of w sealed rest dl le ge h =
      let prefix = append_uint32 [] (length sealed % 2 ^ 32) in
      let w1 = (arm_read default_io_timeout w).1 in
      let (r, s) =
        read_full-append w1 prefix (sealed ++ rest) (h ∙ append_assoc prefix sealed rest) in
      let w2 = (read_full 4 w1).1 in
      let n : uint32 prefix ≡ length sealed =
        rw (← append-nil prefix, uint32-append_uint32)
          (omega (arith, to_uint32-lt max_frame_size)) in
      let (r2, s2) = read_sealed-append w2 sealed rest le ge s in ground arith

  read_frame-announced :
      (w : World) (n : ℕ) (rest : Bytes)
      → DeadlineWorks w
      → n < 2 ^ 32
      → stream w.conn.incoming ≡ append_uint32 [] n ++ rest
      → (w2 : World) × (read_frame c max_frame_size w ≡ read_sealed c n max_frame_size w2)
        × (stream w2.conn.incoming ≡ rest)
  unfolding read_frame arm_read append_uint32
  read_frame-announced w n rest dl lt h =
      let w1 = (arm_read default_io_timeout w).1 in
      let (r, s) = read_full-append w1 (append_uint32 [] n) rest h in
      let v : uint32 (append_uint32 [] n) ≡ n =
        rw (← append-nil (append_uint32 [] n), uint32-append_uint32) (omega arith) in
      ((read_full 4 w1).1, ground arith, s)

  -- A frame that announces more bytes than the cap (as a uint32) is refused with `ErrFrameTooLarge`
  -- when its four length bytes have been read, and one that announces fewer than a nonce and a tag
  -- with `ErrFrameTooSmall`; nothing behind the length is read.
  pub read_frame-append_uint32 :
      (w : World) (n : ℕ) (rest : Bytes)
      → DeadlineWorks w
      → n < 2 ^ 32
      → stream w.conn.incoming ≡ append_uint32 [] n ++ rest
      → (to_uint32 max_frame_size < n) ⊎ (n < nonce_size + gcm_tag_size)
      → ((read_frame c max_frame_size w).0
          ≡ err (
              sentinel (
                if ltb (to_uint32 max_frame_size) n
                then err_frame_too_large
                else err_frame_too_small)))
        × (stream (read_frame c max_frame_size w).1.conn.incoming ≡ rest)
  unfolding read_sealed
  read_frame-append_uint32 w n rest dl lt h bad =
      let (w2, e, s) = read_frame-announced w n rest dl lt h in rw e (by_size w2 s)
    where
      by_size :
          (w2 : World)
          → stream w2.conn.incoming ≡ rest
          → ((read_sealed c n max_frame_size w2).0
              ≡ err (
                  sentinel (
                    if ltb (to_uint32 max_frame_size) n
                    then err_frame_too_large
                    else err_frame_too_small)))
            × (stream (read_sealed c n max_frame_size w2).1.conn.incoming ≡ rest)
      by_size w2 s = ground arith

  -- `readFrame` behind the deadline
  abbrev read_body : Io Bytes
  read_body =
      read_full length_prefix_size >>= λ len_buf. read_sealed c (uint32 len_buf) max_frame_size

  read_sealed_inv :
      (n : ℕ) (w : World) (plaintext : Bytes)
      → (read_sealed c n max_frame_size w).0 ≡ ok plaintext
      → (nonce_size + gcm_tag_size ≤ n)
        × (n ≤ to_uint32 max_frame_size)
        × (((read_full n >>= λ sealed. lift (c.open_sealed sealed)) w).0 ≡ ok plaintext)
        × (read_sealed c n max_frame_size w
            ≡ (read_full n >>= λ sealed. lift (c.open_sealed sealed)) w)
  unfolding read_sealed
  read_sealed_inv n w plaintext h = elim (Bool-cases (ltb (to_uint32 max_frame_size) n)) [
    | inl big ↦ cc (rw big at h)
    | inr fits ↦ elim (Bool-cases (ltb n 28)) [
      | inl small ↦ cc (rw (fits, small) at h)
      | inr large ↦ (
        ltb→le n 28 large,
        ltb→le (to_uint32 max_frame_size) n fits,
        rw (fits, large) at h,
        rw (fits, large) refl,
      )
    ]
  ]

  -- When `readFrame` returns a plaintext, the stream began with four bytes that announce a length
  -- between 28 and the cap as a uint32, and that many bytes that the cipher opens to it; the rest is left.
  pub read_frame_inv :
      (w : World) (plaintext : Bytes)
      → (read_frame c max_frame_size w).0 ≡ ok plaintext
      → (len_buf : Bytes) × (sealed : Bytes) × (stream w.conn.incoming
          ≡ len_buf ++ (sealed ++ stream (read_frame c max_frame_size w).1.conn.incoming))
        × (length len_buf ≡ 4)
        × (uint32 len_buf ≡ length sealed)
        × (nonce_size + gcm_tag_size ≤ length sealed)
        × (length sealed ≤ to_uint32 max_frame_size)
        × (c.open_sealed sealed ≡ ok plaintext)
  unfolding read_frame arm_read
  read_frame_inv w plaintext h =
      let arm = wrap_err "atxp.readFrame" (arm_read default_io_timeout) in
      let w1 = (arm w).1 in
      let next = λ (b : Bytes). read_sealed c (uint32 b) max_frame_size in
      let (armed, e0, h1) = bind_inv arm (λ _. read_body) w h in
      let (len_buf, e1, h2) = bind_inv (read_full length_prefix_size) next w1 h1 in
      let w2 = (read_full length_prefix_size w1).1 in
      let (ge, le, h3, same) = read_sealed_inv (uint32 len_buf) w2 plaintext h2 in
      let (sealed, e2, opened) =
        bind_inv (read_full (uint32 len_buf)) (λ sealed. lift (c.open_sealed sealed)) w2 h3 in
      let (p1, size1) = read_full_inv length_prefix_size w1 len_buf e1 in
      let (p2, size2) = read_full_inv (uint32 len_buf) w2 sealed e2 in
      let final =
        bind_ok arm (λ _. read_body) w e0
        ∙ bind_ok (read_full length_prefix_size) next w1 e1
        ∙ same
        ∙ bind_ok (read_full (uint32 len_buf)) (λ sealed. lift (c.open_sealed sealed)) w2 e2 in
      (
        len_buf,
        sealed,
        p1 ∙ ap (λ t. len_buf ++ t) (p2 ∙ ap (λ q. sealed ++ stream q.1.conn.incoming) (sym final)),
        size1,
        sym size2,
        omega arith,
        omega arith,
        opened,
      )
