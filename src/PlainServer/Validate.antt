-- ===== src/PlainServer/Validate.antt =====
-- The ready-made handlers of version 1.
use atxp.Common.{
  ℕ, ◌≤◌, ◌≡◌, ◌↔◌, ◌⊎◌, inl, inr, refl, Bool, true, false, [], ◌∷◌, ◌++◌, length, drop, arith, not,
  ◌&&◌, ◌||◌, if◌then◌else◌, Bool-cases, ==_iff, leb, ◌==◌,
}
use atxp.Common.Int.{ℤ, pos, negsuc}
use atxp.Wire.{Bytes}
use atxp.Message.{Box, Message, ResponseCode, ok_code, error_code}
use atxp.Packet.{has_prefix}
use atxp.PlainServer.{http_scheme, https_scheme, validate_url, validate_document}

has_prefix-append : (p r : Bytes) → has_prefix (p ++ r) p ≡ true
has_prefix-append [] r = refl
has_prefix-append (x ∷ p) r = ground (arith, has_prefix-append p r, ==_iff x x)

has_prefix-eq : (s p : Bytes) → has_prefix s p ≡ true → s ≡ p ++ drop (length p) s
has_prefix-eq s [] h = refl
has_prefix-eq [] (x ∷ p) h = cc
has_prefix-eq (y ∷ s) (x ∷ p) h = ground (arith, ==_iff y x, has_prefix-eq s p)

-- The code of a handler that has two tests.
abbrev verdict : Bool → Bool → ResponseCode
verdict empty bad = if empty then error_code else if bad then error_code else ok_code

verdict_inv : (empty bad : Bool) → verdict empty bad ≡ ok_code → (empty ≡ false) × (bad ≡ false)
verdict_inv empty bad h = ground arith

verdict-cases :
    (empty bad : Bool) → (verdict empty bad ≡ ok_code) ⊎ (verdict empty bad ≡ error_code)
verdict-cases true bad = inr refl
verdict-cases false true = inr refl
verdict-cases false false = inl refl

no_scheme : Bytes → Bool
no_scheme s = not (has_prefix s http_scheme) && not (has_prefix s https_scheme)

no_scheme_inv :
    (s : Bytes)
    → no_scheme s ≡ false
    → (rest : Bytes) × ((s ≡ http_scheme ++ rest) ⊎ (s ≡ https_scheme ++ rest))
unfolding no_scheme
no_scheme_inv s h = elim (Bool-cases (has_prefix s http_scheme)) [
  | inl plain ↦ (drop 7 s, inl (has_prefix-eq s http_scheme plain))
  | inr other ↦ (drop 8 s, inr (has_prefix-eq s https_scheme (ground (arith, other, h))))
]

no_scheme-append :
    (s rest : Bytes) → (s ≡ http_scheme ++ rest) ⊎ (s ≡ https_scheme ++ rest) → no_scheme s ≡ false
unfolding no_scheme
no_scheme-append s rest (inl e) = rw e refl
no_scheme-append s rest (inr e) = rw e refl

module _ {O D : Type 0} ⦃box : Box O⦄ where
  -- The handler of ValidateURLHandler accepts a message, with OK, exactly when it has data that are
  -- "http://" or "https://" with something or nothing behind it; else it answers ERROR.
  pub validate_url_lem :
      (msg : Message O) (auth_data : D)
      → ((validate_url msg auth_data ≡ ok_code) ↔ (
          (box.is_empty msg.body ≡ false)
          × ((rest : Bytes) × ((box.get msg.body ≡ http_scheme ++ rest)
                ⊎ (box.get msg.body ≡ https_scheme ++ rest)))))
        × ((validate_url msg auth_data ≡ ok_code) ⊎ (validate_url msg auth_data ≡ error_code))
  unfolding validate_url no_scheme
  validate_url_lem msg auth_data =
      let empty = box.is_empty msg.body in
      let s = box.get msg.body in
      (
        (
          λ h.
              let (present, shape) = verdict_inv empty (no_scheme s) h in
              (present, no_scheme_inv s shape),
          λ (present, (rest, shape)). rw (present, no_scheme-append s rest shape) refl,
        ),
        verdict-cases empty (no_scheme s),
      )

  -- The handler of ValidateDocumentHandler with a limit that is not negative accepts a message, with
  -- OK, exactly when it has data, of one byte at least and at most as many as the limit; else, and with
  -- a negative limit always, it answers ERROR.
  pub validate_document_lem :
      (limit : ℤ) (msg : Message O) (auth_data : D)
      → ((validate_document limit msg auth_data ≡ ok_code) ↔ (
          (box.is_empty msg.body ≡ false)
          × ((n : ℕ) × (limit ≡ pos n)
              × (1 ≤ length (box.get msg.body))
              × (length (box.get msg.body) ≤ n))))
        × ((validate_document limit msg auth_data ≡ ok_code)
            ⊎ (validate_document limit msg auth_data ≡ error_code))
  unfolding validate_document
  validate_document_lem (pos n) msg auth_data =
      let empty = box.is_empty msg.body in
      let s = box.get msg.body in
      let bad = not (leb (length s) n) || length s == 0 in
      (
        (
          λ h.
              let (present, shape) = verdict_inv empty bad h in
              (present, (n, refl, ground arith, ground arith)),
          λ (present, (m, same, lo, hi)). rw present (ground arith),
        ),
        verdict-cases empty bad,
      )
  validate_document_lem (negsuc n) msg auth_data =
      let empty = box.is_empty msg.body in
      (
        (
          λ h. absurd (ground (arith, verdict_inv empty true h)),
          λ (present, (m, same, lo, hi)). cc same,
        ),
        verdict-cases empty true,
      )
