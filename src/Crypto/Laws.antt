-- ===== src/Crypto/Laws.antt =====
-- The GCM cipher keeps the contract of `Cipher`: `Open` undoes `Seal` and accepts nothing else.
use atxp.Common.{
  ℕ, not, ◌==◌, subst, if◌then◌else◌, zero, suc, ◌+◌, ◌≤◌, ◌≡◌, refl, sym, ap, ◌∙◌, ◌++◌, length,
  take, drop, arith, length-append, length-take, take-append, drop-append, take-append-drop,
}
use atxp.Common.Int.{ℤ, pos, le_int}
use atxp.Errors.{Result, ok, err, sentinel, wrap, err_invalid_checksum, >>=-eq-ok, if-eq-ok}
use atxp.Wire.{Bytes}
use atxp.Conn.{Entropy, rand_read, random_bytes, wrapped}
use atxp.Conn.Trace.{wrapped_inv}
use atxp.Crypto.{
  Crypto, Cipher, default_kdf_iterations, salt_size, key_size, nonce_size, gcm_tag_size, derive_key,
  seal_gcm, open_gcm, gcm_cipher, new_gcm_cipher,
}

-- What the framing relies on: a sealed plaintext opens, and is 28 bytes longer.
pub record IsSound (c : Cipher) : Type 0 where
  pub open_sealed-seal :
      (plaintext sealed : Bytes) (e e' : Entropy)
      → c.seal plaintext e ≡ (ok sealed, e')
      → c.open_sealed sealed ≡ ok plaintext
  pub length-seal :
      (plaintext sealed : Bytes) (e e' : Entropy)
      → c.seal plaintext e ≡ (ok sealed, e')
      → length sealed ≡ length plaintext + (nonce_size + gcm_tag_size)

pub length-random_bytes : (source : ℕ → ℕ) (at n : ℕ) → length (random_bytes source at n) ≡ n
unfolding random_bytes
length-random_bytes source at zero = refl
length-random_bytes source at (suc n) = ap suc (length-random_bytes source (at + 1) n)

pub length-rand_read :
    (n : ℕ) (e e' : Entropy) (bs : Bytes) → rand_read n e ≡ (ok bs, e') → length bs ≡ n
unfolding rand_read
length-rand_read n e e' bs h = ground (arith, length-random_bytes e.source e.drawn n)

module _ (cr : Crypto) where
  open cr use {Aead, gcm_seal, gcm_open, length-gcm_seal, gcm_open-gcm_seal, gcm_open-genuine}

  seal_gcm_inv :
      (a : Aead) (plaintext sealed : Bytes) (e e' : Entropy)
      → seal_gcm cr a plaintext e ≡ (ok sealed, e')
      → (nonce : Bytes) × (length nonce ≡ nonce_size)
        × (sealed ≡ nonce ++ gcm_seal a nonce plaintext)
  unfolding seal_gcm
  seal_gcm_inv a plaintext sealed e e' h =
      by_nonce (rand_read nonce_size e) (λ bs e2. length-rand_read nonce_size e e2 bs) h
    where
      by_nonce :
          (q : Result Bytes × Entropy)
          → ((bs : Bytes) (e2 : Entropy) → q ≡ (ok bs, e2) → length bs ≡ nonce_size)
          → ◌≡◌ {A = Result Bytes × Entropy}
              (
                elim q.0 [
                  | ok nonce ↦ ok (nonce ++ gcm_seal a nonce plaintext)
                  | err x ↦ err (wrap "atxp.Seal: nonce generation" x)
                ],
                q.1,
              )
              (ok sealed, e')
          → (nonce : Bytes) × (length nonce ≡ nonce_size)
            × (sealed ≡ nonce ++ gcm_seal a nonce plaintext)
      by_nonce (ok nonce, e2) len h = (nonce, len nonce e2 refl, ground arith)
      by_nonce (err x, e2) len h = cc

  -- `Open` reads the nonce that `Seal` put in front.
  open_gcm-append :
      (a : Aead) (nonce ciphertext : Bytes)
      → length nonce ≡ nonce_size
      → gcm_tag_size ≤ length ciphertext
      → open_gcm cr a (nonce ++ ciphertext) ≡ elim (gcm_open a nonce ciphertext) [
        | ok plaintext ↦ ok plaintext
        | err x ↦ err (sentinel err_invalid_checksum)
      ]
  unfolding open_gcm
  open_gcm-append a nonce ciphertext h k =
      let t = take-append nonce ciphertext in
      let d = drop-append nonce ciphertext in
      ground (
        arith,
        length-append nonce ciphertext,
        ap (λ n. take n (nonce ++ ciphertext)) h,
        ap (λ n. drop n (nonce ++ ciphertext)) h,
      )

  -- The GCM cipher over any AEAD that keeps the documented laws is a sound `Cipher`: where `Seal`
  -- returns bytes, `Open` of them returns the plaintext, and they are longer than the plaintext by
  -- the nonce and the tag, 28 bytes.
  pub gcm_cipher-IsSound : (a : Aead) → IsSound (gcm_cipher cr a)
  unfolding gcm_cipher
  gcm_cipher-IsSound a = record {
    open_sealed-seal = λ plaintext sealed e e' h.
        let (nonce, len, eq) = seal_gcm_inv a plaintext sealed e e' h in
        rw eq (
          open_gcm-append a nonce (gcm_seal a nonce plaintext) len
            (omega (arith, length-gcm_seal a nonce plaintext))
          ∙ rw (gcm_open-gcm_seal a nonce plaintext len));
    length-seal = λ plaintext sealed e e' h.
        let (nonce, len, eq) = seal_gcm_inv a plaintext sealed e e' h in
        omega (
          arith,
          ap length eq,
          length-append nonce (gcm_seal a nonce plaintext),
          length-gcm_seal a nonce plaintext,
        );
  }

  -- Only genuine frames open: whatever `Open` accepts is a nonce with what GCM seals of the returned
  -- plaintext under that nonce and this key.
  pub open_gcm-genuine :
      (a : Aead) (sealed plaintext : Bytes)
      → open_gcm cr a sealed ≡ ok plaintext
      → (nonce : Bytes) × (length nonce ≡ nonce_size)
        × (sealed ≡ nonce ++ gcm_seal a nonce plaintext)
  unfolding open_gcm
  open_gcm-genuine a sealed plaintext h =
      let nonce = take nonce_size sealed in
      let len : nonce_size + gcm_tag_size ≤ length sealed = ground arith in
      let size : length nonce ≡ nonce_size = omega (arith, length-take nonce_size sealed) in
      let opened : gcm_open a nonce (drop nonce_size sealed) ≡ ok plaintext = ground arith in
      (
        nonce,
        size,
        sym (take-append-drop nonce_size sealed)
            ∙ ap (λ c. nonce ++ c)
                (gcm_open-genuine a nonce (drop nonce_size sealed) plaintext size opened),
      )

  -- Every cipher that a key gives is sound, and the key has 32 bytes.
  pub new_gcm_cipher-IsSound :
      (key : Bytes) (c : Cipher)
      → new_gcm_cipher cr key ≡ ok c
      → IsSound c × (length key ≡ key_size)
  unfolding new_gcm_cipher
  new_gcm_cipher-IsSound key c h =
      let (size, h1) = if-eq-ok (not (length key == key_size)) _ _ h in
      let (block, e1, h2) = >>=-eq-ok (wrapped "atxp.newGCMCipher" (cr.aes_new_cipher key)) _ h1 in
      let (aead, e2, h3) = >>=-eq-ok (wrapped "atxp.newGCMCipher" (cr.new_gcm block)) _ h2 in
      (subst IsSound (cc h3) (gcm_cipher-IsSound aead), ground (arith, size))

  -- A salt of another length is refused as a failed handshake, and a derived key has 32 bytes.
  pub derive_key_lem :
      (password salt : Bytes) (iterations : ℤ) (key : Bytes)
      → derive_key cr password salt iterations ≡ ok key
      → (length salt ≡ salt_size) × (length key ≡ key_size)
  unfolding derive_key
  derive_key_lem password salt iterations key h =
      let (size, h1) = if-eq-ok (not (length salt == salt_size)) _ _ h in
      let n = if le_int iterations (pos 0) then default_kdf_iterations else iterations in
      (
        ground (arith, size),
        cr.length-pbkdf2_key password salt n key_size key
            (wrapped_inv "atxp.deriveKey" (cr.pbkdf2_key password salt n key_size) h1),
      )
