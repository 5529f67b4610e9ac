-- ===== src/Crypto/Nonces.antt =====
-- What `Seal` draws from the random source.
use atxp.Common.{
  List, [], ◌∷◌, Option, some, ℕ, ◌+◌, ◌≡◌, refl, ◌⊎◌, inl, inr, none, ◌++◌, length, ◌==◌, not,
}
use atxp.Errors.{Error, ok, err, wrap, >>=-eq-ok, if-eq-ok}
use atxp.Wire.{Bytes}
use atxp.Conn.{Entropy, rand_read, random_bytes, wrapped}
use atxp.Crypto.{Crypto, Cipher, nonce_size, key_size, seal_gcm, gcm_cipher, new_gcm_cipher}

-- `Read` of crypto/rand has drawn the next bytes, or has failed and drawn nothing.
pub rand_read_cases :
    (n : ℕ) (e : Entropy)
    → (((rand_read n e).0 ≡ ok (random_bytes e.source e.drawn n))
        × ((rand_read n e).1.drawn ≡ e.drawn + n)
        × ((rand_read n e).1.source ≡ e.source))
      ⊎ ((x : Error) × ((rand_read n e).0 ≡ err x)
          × ((rand_read n e).1.drawn ≡ e.drawn)
          × ((rand_read n e).1.source ≡ e.source))
unfolding rand_read
rand_read_cases n e = by_faults e.faults
  where
    by_faults :
        (fs : List (Option Error))
        → let r = rand_read n (record e { faults = fs }) in
          ((r.0 ≡ ok (random_bytes e.source e.drawn n))
            × (r.1.drawn ≡ e.drawn + n)
            × (r.1.source ≡ e.source))
          ⊎ ((x : Error) × (r.0 ≡ err x) × (r.1.drawn ≡ e.drawn) × (r.1.source ≡ e.source))
    by_faults [] = inl (refl, refl, refl)
    by_faults (none ∷ fs) = inl (refl, refl, refl)
    by_faults (some x ∷ fs) = inr (x, refl, refl, refl)

module _ (cr : Crypto) where
  open cr use {Aead, gcm_seal}

  -- The plaintext, sealed under the nonce that stands at a position of the random source.
  abbrev pub sealed_at : Aead → (ℕ → ℕ) → ℕ → Bytes → Bytes
  sealed_at a source at plaintext =
      random_bytes source at nonce_size ++ gcm_seal a (random_bytes source at nonce_size) plaintext

  -- `Seal` has drawn the next 12 bytes, or has failed and drawn nothing.
  pub seal_gcm_cases :
      (a : Aead) (plaintext : Bytes) (e : Entropy)
      → (((seal_gcm cr a plaintext e).0 ≡ ok (sealed_at a e.source e.drawn plaintext))
          × ((seal_gcm cr a plaintext e).1.drawn ≡ e.drawn + nonce_size)
          × ((seal_gcm cr a plaintext e).1.source ≡ e.source))
        ⊎ ((x : Error) × ((seal_gcm cr a plaintext e).0 ≡ err x)
            × ((seal_gcm cr a plaintext e).1.drawn ≡ e.drawn)
            × ((seal_gcm cr a plaintext e).1.source ≡ e.source))
  unfolding seal_gcm
  seal_gcm_cases a plaintext e = elim (rand_read_cases nonce_size e) [
    | inl (drawn, moves, keeps) ↦ inl (rw (seal_gcm, drawn) refl, moves, keeps)
    | inr (x, fails, stays, keeps) ↦
        inr (wrap "atxp.Seal: nonce generation" x, rw (seal_gcm, fails) refl, stays, keeps)
  ]

  -- Every cipher that a key gives is a GCM cipher.
  pub new_gcm_cipher_inv :
      (key : Bytes) (c : Cipher) → new_gcm_cipher cr key ≡ ok c → (a : Aead) × (c ≡ gcm_cipher cr a)
  unfolding new_gcm_cipher
  new_gcm_cipher_inv key c h =
      let (size, h1) = if-eq-ok (not (length key == key_size)) _ _ h in
      let (block, e1, h2) = >>=-eq-ok (wrapped "atxp.newGCMCipher" (cr.aes_new_cipher key)) _ h1 in
      let (aead, e2, h3) = >>=-eq-ok (wrapped "atxp.newGCMCipher" (cr.new_gcm block)) _ h2 in
      (aead, cc h3)
