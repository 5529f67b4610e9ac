-- ===== src/Endpoint/Output.antt =====
-- What `ServerHandshake` puts out.
use atxp.Common.{
  ℕ, ◌+◌, ◌≡◌, refl, sym, ap, ◌∙◌, ◌⊎◌, inl, inr, none, List, [], ◌∷◌, ◌++◌, take, append_assoc,
  append-nil, Option-cases,
}
use atxp.Errors.{Error, Result, ok, err, Result-cases, >>=-eq-ok}
use atxp.Wire.{Bytes}
use atxp.Conn.{
  World, Entropy, Call, set_write_deadline, write, next_fault, arm_write, write_bytes, rand_read,
  random_bytes,
}
use atxp.Crypto.{Crypto, Cipher, salt_size, derive_key, gcm_cipher}
use atxp.Crypto.Nonces.{rand_read_cases, new_gcm_cipher_inv}
use atxp.Frame.Output.{written, sent-take}
use atxp.Endpoint.{V2, handshake_header, cipher_from_salt, server_handshake}
use atxp.Endpoint.Handshake.{send_header}

-- The salt that stands next in the random source.
abbrev pub next_salt : Entropy → Bytes
next_salt e = random_bytes e.source e.drawn salt_size

module _ (cr : Crypto) (v : V2) where
  -- The calls of a handshake with a salt, and its result: an error, behind nothing or a part of the
  -- header, or a cipher, behind the whole header.
  abbrev pub Shaken : Bytes → Result Cipher → List Call → Type 0
  Shaken salt r calls =
      ((x : Error) × (r ≡ err x)
        × ((written calls ≡ [])
            ⊎ ((n : ℕ) × (written calls ≡ take n (handshake_header salt) ∷ []))))
      ⊎ ((c : Cipher) × (r ≡ ok c)
          × (cipher_from_salt cr v salt ≡ ok c)
          × (written calls ≡ handshake_header salt ∷ []))

  send_header_cases :
      (salt : Bytes) (w : World)
      → (calls : List Call) × ((send_header cr v salt w).1.conn.trace ≡ w.conn.trace ++ calls)
        × ((send_header cr v salt w).1.entropy ≡ w.entropy)
        × Shaken salt (send_header cr v salt w).0 calls
  unfolding arm_write write_bytes
  send_header_cases salt w =
      let arm = set_write_deadline v.timeout in
      elim (Option-cases (next_fault w.conn.deadline_faults).0) [
        | inr (x, fails) ↦ rw fails (arm ∷ [], refl, refl, inl (_, refl, inl refl))
        | inl works ↦ elim (Option-cases (next_fault w.conn.write_faults).0) [
          | inr ((n, x), fails) ↦
              rw (works, fails)
                (
                  arm ∷ write (take n (handshake_header salt)) ∷ [],
                  append_assoc w.conn.trace (arm ∷ []) _,
                  refl,
                  inl (_, refl, inr (n, refl)),
                )
          | inl writes ↦ elim (Result-cases (cipher_from_salt cr v salt)) [
            | inl (c, made) ↦
                rw (works, writes, made)
                  (
                    arm ∷ write (handshake_header salt) ∷ [],
                    append_assoc w.conn.trace (arm ∷ []) _,
                    refl,
                    inr (c, refl, refl, refl),
                  )
            | inr (x, fails) ↦
                let (n, e) = sent-take none (handshake_header salt) in
                rw (works, writes, fails)
                  (
                    arm ∷ write (handshake_header salt) ∷ [],
                    append_assoc w.conn.trace (arm ∷ []) _,
                    refl,
                    inl (_, refl, inr (n, ap (λ t. t ∷ []) e)),
                  )
          ]
        ]
      ]

  -- The whole handshake: its salt is what stands next in the random source, and where it returns a
  -- cipher, what stands behind the salt is next.
  pub server_handshake_cases :
      (w : World)
      → let (r, w') = server_handshake cr v w in
        (calls : List Call) × (w'.conn.trace ≡ w.conn.trace ++ calls)
        × (w'.entropy.source ≡ w.entropy.source)
        × ((c : Cipher) → r ≡ ok c → w'.entropy.drawn ≡ w.entropy.drawn + salt_size)
        × Shaken (next_salt w.entropy) r calls
  unfolding server_handshake
  server_handshake_cases w =
      let e = w.entropy in
      let w1 = record w { entropy = (rand_read salt_size e).1 } in
      elim (rand_read_cases salt_size e) [
        | inr (x, fails, stays, keeps) ↦
            rw fails ([], sym (append-nil w.conn.trace), keeps, λ c h. cc, inl (_, refl, inl refl))
        | inl (drawn, moves, keeps) ↦
            let (calls, t, same, shaken) = send_header_cases (next_salt e) w1 in
            rw drawn (
              calls,
              t,
              ap (λ r. r.source) same ∙ keeps,
              λ c h. ap (λ r. r.drawn) same ∙ moves,
              shaken,
            )
      ]

  -- A cipher that a salt gives is a GCM cipher.
  pub cipher_from_salt-gcm_cipher :
      (salt : Bytes) (c : Cipher)
      → cipher_from_salt cr v salt ≡ ok c
      → (a : cr.Aead) × (c ≡ gcm_cipher cr a)
  unfolding cipher_from_salt
  cipher_from_salt-gcm_cipher salt c h =
      let (key, e, h') = >>=-eq-ok (derive_key cr v.password salt v.iterations) _ h in
      new_gcm_cipher_inv cr key c h'
