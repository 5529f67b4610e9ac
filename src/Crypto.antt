-- ===== src/Crypto.antt =====
-- crypto_v2.go: key derivation and the AES-256-GCM `Cipher`. The packages crypto/pbkdf2, crypto/aes
-- and crypto/cipher are a parameter, with what their documentation says of them.
pub mod Laws
pub mod Nonces
use atxp.Common.{ℕ, ◌+◌, ◌^◌, ◌≡◌, ◌++◌, not, length, take, drop, ltb, ◌==◌, if◌then◌else◌}
use atxp.Common.Int.{ℤ, pos, le_int}
use atxp.Errors.{
  Result, ok, err, sentinel, wrap, err_handshake, err_invalid_key, err_frame_too_small,
  err_invalid_checksum, ◌>>=◌,
}
use atxp.Wire.{Bytes}
use atxp.Conn.{Entropy, rand_read, wrapped}

abbrev pub salt_size : ℕ
salt_size = 16

abbrev pub nonce_size : ℕ
nonce_size = 12

abbrev pub key_size : ℕ
key_size = 32

abbrev pub gcm_tag_size : ℕ
gcm_tag_size = 16

abbrev pub default_kdf_iterations : ℤ
default_kdf_iterations = pos 600_000

-- The Go packages. The additional data of `Seal` and `Open` is always nil here.
pub record Crypto : Type 1 where
  pub Block : Type 0
  pub Aead : Type 0
  pub pbkdf2_key : Bytes → Bytes → ℤ → ℕ → Result Bytes
  pub aes_new_cipher : Bytes → Result Block
  pub new_gcm : Block → Result Aead
  pub gcm_seal : Aead → Bytes → Bytes → Bytes
  pub gcm_open : Aead → Bytes → Bytes → Result Bytes
  -- a derived key has the length that was asked for
  pub length-pbkdf2_key :
      (password salt : Bytes) (n : ℤ) (size : ℕ) (key : Bytes)
      → pbkdf2_key password salt n size ≡ ok key
      → length key ≡ size
  -- the ciphertext with its tag is 16 bytes longer than the plaintext
  pub length-gcm_seal :
      (a : Aead) (nonce plaintext : Bytes)
      → length (gcm_seal a nonce plaintext) ≡ length plaintext + gcm_tag_size
  -- what was sealed opens
  pub gcm_open-gcm_seal :
      (a : Aead) (nonce plaintext : Bytes)
      → length nonce ≡ nonce_size
      → gcm_open a nonce (gcm_seal a nonce plaintext) ≡ ok plaintext
  -- only what was sealed opens: the tag is a function of the key, the nonce and the ciphertext
  pub gcm_open-genuine :
      (a : Aead) (nonce ciphertext plaintext : Bytes)
      → length nonce ≡ nonce_size
      → gcm_open a nonce ciphertext ≡ ok plaintext
      → ciphertext ≡ gcm_seal a nonce plaintext

-- The interface `Cipher`. `Seal` may draw random bytes.
pub record Cipher : Type 0 where
  pub seal : Bytes → Entropy → Result Bytes × Entropy
  pub open_sealed : Bytes → Result Bytes

module _ (cr : Crypto) where
  open cr use {Aead, pbkdf2_key, aes_new_cipher, new_gcm, gcm_seal, gcm_open}

  unfoldable pub derive_key : Bytes → Bytes → ℤ → Result Bytes
  derive_key password salt iterations =
      if not (length salt == salt_size)
      then err (wrap "atxp.deriveKey" (sentinel err_handshake))
      else let n = if le_int iterations (pos 0) then default_kdf_iterations else iterations in
        wrapped "atxp.deriveKey" (pbkdf2_key password salt n key_size)

  -- gcmCipher.Seal: nonce || ciphertext || tag
  unfoldable pub seal_gcm : Aead → Bytes → Entropy → Result Bytes × Entropy
  seal_gcm aead plaintext e =
      let (r, e') = rand_read nonce_size e in
      (
        elim r [
          | ok nonce ↦ ok (nonce ++ gcm_seal aead nonce plaintext)
          | err x ↦ err (wrap "atxp.Seal: nonce generation" x)
        ],
        e',
      )

  unfoldable pub open_gcm : Aead → Bytes → Result Bytes
  open_gcm aead nonce_and_ciphertext =
      if ltb (length nonce_and_ciphertext) (nonce_size + gcm_tag_size)
      then err (wrap "atxp.Open" (sentinel err_frame_too_small))
      else let nonce = take nonce_size nonce_and_ciphertext in
        let ciphertext = drop nonce_size nonce_and_ciphertext in
        elim (gcm_open aead nonce ciphertext) [
          | ok plaintext ↦ ok plaintext
          | err x ↦ err (sentinel err_invalid_checksum)
        ]

  -- &gcmCipher{aead: aead}, as a `Cipher`
  unfoldable pub gcm_cipher : Aead → Cipher
  unfolding seal_gcm open_gcm
  gcm_cipher aead = record { seal = seal_gcm aead; open_sealed = open_gcm aead }

  unfoldable pub new_gcm_cipher : Bytes → Result Cipher
  new_gcm_cipher key =
      if not (length key == key_size)
      then err (wrap "atxp.newGCMCipher" (sentinel err_invalid_key))
      else wrapped "atxp.newGCMCipher" (aes_new_cipher key) >>= λ block.
          wrapped "atxp.newGCMCipher" (new_gcm block) >>= λ aead. ok (gcm_cipher aead)
