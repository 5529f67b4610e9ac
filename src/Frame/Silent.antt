-- ===== src/Frame/Silent.antt =====
-- `readFrame` writes nothing and draws nothing.
use atxp.Common.{ℕ, ◌+◌, ◌≡◌, refl, ◌∙◌, List, [], ◌∷◌, ltb, Bool-cases, inl, inr, All}
use atxp.Common.Int.{ℤ, to_uint32}
use atxp.Errors.{Result, ok, err}
use atxp.Wire.{Bytes, uint32}
use atxp.Conn.{
  World, Call, set_read_deadline, set_write_deadline, read, write, close, arm_read, read_full, Io,
  lift, wrap_err, continue, ◌>>=◌,
}
use atxp.Conn.Trace.{Makes, trace_rules}
use atxp.Crypto.{Cipher, nonce_size, gcm_tag_size}
use atxp.Frame.{read_frame, read_sealed, default_io_timeout, length_prefix_size}
use atxp.Frame.Output.{written}

-- The calls do not write.
abbrev pub IsSilent : Call → Type 0
IsSilent (set_read_deadline d) = Unit
IsSilent (set_write_deadline d) = Unit
IsSilent (read n) = Unit
IsSilent (write bs) = ⊥
IsSilent close = Unit

pub written-IsSilent : (calls : List Call) → All IsSilent calls → written calls ≡ []
written-IsSilent [] h = refl
written-IsSilent (set_read_deadline d ∷ cs) h = written-IsSilent cs h.1
written-IsSilent (set_write_deadline d ∷ cs) h = written-IsSilent cs h.1
written-IsSilent (read n ∷ cs) h = written-IsSilent cs h.1
written-IsSilent (write bs ∷ cs) h = absurd h.0
written-IsSilent (close ∷ cs) h = written-IsSilent cs h.1

pub read_frame-IsSilent : (c : Cipher) (limit : ℤ) → Makes IsSilent (read_frame c limit)
unfolding read_frame read_sealed
read_frame-IsSilent c limit = search trace_rules depth 12

module _ {A B : Type 0} where
  -- What draws nothing.
  pub bind-entropy :
      (m : Io A) (f : A → Io B)
      → ((w : World) → (m w).1.entropy ≡ w.entropy)
      → ((x : A) (w : World) → (f x w).1.entropy ≡ w.entropy)
      → (w : World) → ((m >>= f) w).1.entropy ≡ w.entropy
  bind-entropy m f h k w = by_result (m w).0
    where
      by_result : (r : Result A) → (continue r f (m w).1).1.entropy ≡ w.entropy
      by_result (ok x) = k x (m w).1 ∙ h w
      by_result (err e) = h w

read_sealed-entropy :
    (c : Cipher) (n : ℕ) (limit : ℤ) (w : World) → (read_sealed c n limit w).1.entropy ≡ w.entropy
unfolding read_sealed read_full
read_sealed-entropy c n limit w = elim (Bool-cases (ltb (to_uint32 limit) n)) [
  | inl large ↦ rw large refl
  | inr fits ↦ elim (Bool-cases (ltb n (nonce_size + gcm_tag_size))) [
    | inl small ↦ rw (fits, small) refl
    | inr enough ↦
        rw (fits, enough)
          (bind-entropy (read_full n) (λ sealed. lift (c.open_sealed sealed)) (λ u. refl)
            (λ sealed u. refl) w)
  ]
]

pub read_frame-entropy :
    (c : Cipher) (limit : ℤ) (w : World) → (read_frame c limit w).1.entropy ≡ w.entropy
unfolding read_frame arm_read read_full
read_frame-entropy c limit =
    let body = λ (b : Bytes). read_sealed c (uint32 b) limit in
    let arm = wrap_err "atxp.readFrame" (arm_read default_io_timeout) in
    bind-entropy arm (λ _. read_full length_prefix_size >>= body) (λ w. refl)
      (λ _.
        bind-entropy (read_full length_prefix_size) body (λ w. refl)
          (λ b w. read_sealed-entropy c (uint32 b) limit w))
