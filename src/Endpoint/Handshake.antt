-- ===== src/Endpoint/Handshake.antt =====
-- The two sides of the handshake agree on the cipher.
use atxp.Common.{
  ◌+◌, ◌≡◌, refl, sym, subst, ap, ap₂, ◌∙◌, [], ◌∷◌, ◌++◌, length, take, drop, arith, append-nil,
  drop-append, append_assoc, ◌==◌, eq_bytes, eq_bytes→eq, not, take-append-drop, drop-drop,
  length-drop, ◌<◌,
}
use atxp.Errors.{ok, if-eq-ok, >>=-eq-ok}
use atxp.Wire.{Bytes, first}
use atxp.Conn.{
  World, Io, set_write_deadline, write, arm_read, arm_write, write_bytes, read_full, rand_read,
  on_entropy, wrap_err, map_err, lift, ◌>>=◌, ◌>>◌,
}
use atxp.Conn.Trace.{bind_inv, bind_ok, wrapped_inv, map_error_inv}
use atxp.Conn.Stream.{stream}
use atxp.Crypto.{Crypto, Cipher, salt_size, derive_key}
use atxp.Crypto.Laws.{IsSound, new_gcm_cipher-IsSound, length-rand_read}
use atxp.Frame.Read.{DeadlineWorks, read_full-append, read_full_inv}
use atxp.Frame.Transfer.{Delivers}
use atxp.Endpoint.{
  V2, failed, handshake_header, handshake_header_size, handshake_magic, protocol_version_v2,
  cipher_from_salt, server_handshake, client_handshake, check_header,
}

uncons : (bs : Bytes) → 0 < length bs → bs ≡ first bs ∷ drop 1 bs
uncons [] h = absurd (omega arith)
uncons (x ∷ bs) h = refl

length-handshake_header : (salt : Bytes) → length (handshake_header salt) ≡ 6 + length salt
unfolding handshake_header
length-handshake_header salt = omega arith

module _ (cr : Crypto) where
  -- A header of the documented form passes the checks.
  check_header-handshake_header :
      (v : V2) (salt : Bytes)
      → check_header cr v (handshake_header salt) ≡ cipher_from_salt cr v salt
  unfolding check_header handshake_header
  check_header-handshake_header v salt = refl

  -- Every header that passes the checks is of the documented form.
  check_header_inv :
      (v : V2) (header : Bytes) (c : Cipher)
      → length header ≡ handshake_header_size
      → check_header cr v header ≡ ok c
      → (salt : Bytes) × (header ≡ handshake_header salt) × (cipher_from_salt cr v salt ≡ ok c)
  unfolding check_header handshake_header
  check_header_inv v header c len h =
      let (magic, h1) =
        if-eq-ok (not (eq_bytes (take (length handshake_magic) header) handshake_magic)) _ _ h in
      let (version, h2) =
        if-eq-ok (not (first (drop (length handshake_magic) header) == protocol_version_v2)) _ _
          h1 in
      let e1 =
        eq_bytes→eq (take (length handshake_magic) header) handshake_magic
          (ground (arith, magic)) in
      let e2 : first (drop (length handshake_magic) header) ≡ protocol_version_v2 =
        ground (arith, version) in
      let e3 = uncons (drop (length handshake_magic) header) (rw length-drop (omega arith)) in
      (
        drop (length handshake_magic + 1) header,
        ground (arith, e1, e2, e3, take-append-drop 5 header, drop-drop 1 5 header),
        h2,
      )

  pub cipher_from_salt-IsSound :
      (v : V2) (salt : Bytes) (c : Cipher) → cipher_from_salt cr v salt ≡ ok c → IsSound c
  unfolding cipher_from_salt
  cipher_from_salt-IsSound v salt c h =
      let (key, e, h') = >>=-eq-ok (derive_key cr v.password salt v.iterations) _ h in
      (new_gcm_cipher-IsSound cr key c h').0

  -- `ServerHandshake` behind the salt
  abbrev pub send_header : V2 → Bytes → Io Cipher
  send_header v salt = do
    wrap_err "atxp.ServerHandshake" (arm_write v.timeout)
    map_err (failed "atxp.ServerHandshake") (write_bytes (handshake_header salt))
    lift (cipher_from_salt cr v salt)

  send_header_inv :
      (v : V2) (salt : Bytes) (w : World) (c : Cipher)
      → (send_header v salt w).0 ≡ ok c
      → (cipher_from_salt cr v salt ≡ ok c)
        × ((send_header v salt w).1.conn.trace
            ≡ w.conn.trace ++ set_write_deadline v.timeout ∷ write (handshake_header salt) ∷ [])
        × ((send_header v salt w).1.conn.incoming ≡ w.conn.incoming)
  unfolding arm_write write_bytes
  send_header_inv v salt w c h = ground (
    arith,
    append_assoc w.conn.trace (set_write_deadline v.timeout ∷ [])
        (write (handshake_header salt) ∷ []),
  )

  -- What `ServerHandshake` did when it returned a cipher.
  pub server_handshake_inv :
      (v : V2) (w : World) (c : Cipher)
      → (server_handshake cr v w).0 ≡ ok c
      → (salt : Bytes) × (length salt ≡ salt_size)
        × (cipher_from_salt cr v salt ≡ ok c)
        × ((server_handshake cr v w).1.conn.trace
            ≡ w.conn.trace ++ set_write_deadline v.timeout ∷ write (handshake_header salt) ∷ [])
        × ((server_handshake cr v w).1.conn.incoming ≡ w.conn.incoming)
  unfolding server_handshake arm_write write_bytes
  server_handshake_inv v w c h =
      let (salt, e, h') =
        bind_inv (wrap_err "atxp.ServerHandshake: salt" (on_entropy (rand_read salt_size)))
          (send_header v) w h in
      let e' : (rand_read salt_size w.entropy).0 ≡ ok salt =
        wrapped_inv "atxp.ServerHandshake: salt" _ e in
      let (made, t, i) =
        send_header_inv v salt
          (wrap_err "atxp.ServerHandshake: salt" (on_entropy (rand_read salt_size)) w).1 c h' in
      (
        salt,
        length-rand_read salt_size w.entropy _ salt
            (ap (λ r. (r, (rand_read salt_size w.entropy).1)) e'),
        made,
        rw e' t,
        rw e' i,
      )

  -- The key depends on the password, the salt and the iteration count alone.
  cipher_from_salt_eq :
      (v v' : V2) (salt : Bytes)
      → v.password ≡ v'.password
      → v.iterations ≡ v'.iterations
      → cipher_from_salt cr v salt ≡ cipher_from_salt cr v' salt
  unfolding cipher_from_salt
  cipher_from_salt_eq v v' salt p i = cc

  client_handshake-header :
      (v : V2) (u : World) (salt rest : Bytes) (c : Cipher)
      → DeadlineWorks u
      → length salt ≡ salt_size
      → stream u.conn.incoming ≡ handshake_header salt ++ rest
      → cipher_from_salt cr v salt ≡ ok c
      → ((client_handshake cr v u).0 ≡ ok c)
        × (stream (client_handshake cr v u).1.conn.incoming ≡ rest)
  unfolding client_handshake arm_read handshake_header
  client_handshake-header v u salt rest c works len h made =
      let u1 = (arm_read v.timeout u).1 in
      let size : length (handshake_header salt) ≡ handshake_header_size = omega arith in
      let (r, s) = read_full-append u1 (handshake_header salt) rest h in
      let r' = subst (λ n. (read_full n u1).0 ≡ ok (handshake_header salt)) size r in
      let s' = subst (λ n. stream (read_full n u1).1.conn.incoming ≡ rest) size s in
      rw (works, r', check_header-handshake_header) (made, s')

  -- When `ServerHandshake` returns a cipher, `ClientHandshake` on a stream that begins with what the
  -- server put out returns the same cipher, however the stream is cut into reads, if the two endpoints
  -- have the same password and iteration count and the client's call of SetReadDeadline succeeds; it
  -- leaves what follows the header.
  pub client_handshake-server_handshake :
      (v v' : V2) (w u : World) (rest : Bytes) (c : Cipher)
      → v.password ≡ v'.password
      → v.iterations ≡ v'.iterations
      → (server_handshake cr v w).0 ≡ ok c
      → Delivers w (server_handshake cr v w).1 u rest
      → ((client_handshake cr v' u).0 ≡ ok c)
        × (stream (client_handshake cr v' u).1.conn.incoming ≡ rest)
  client_handshake-server_handshake v v' w u rest c p i h d =
      let (salt, len, made, t, _) = server_handshake_inv v w c h in
      client_handshake-header v' u salt rest c d.works len
        (d.arrives ∙ rw (t, drop-append w.conn.trace, append-nil) refl)
        (sym (cipher_from_salt_eq v v' salt p i) ∙ made)

  -- `ClientHandshake` behind the deadline
  abbrev pub read_header : V2 → Io Cipher
  read_header v = do
    header ← map_err (failed "atxp.ClientHandshake") (read_full handshake_header_size)
    lift (check_header cr v header)

  -- A cipher comes out of `ClientHandshake` only for a stream that begins with the magic, the version
  -- and a salt of 16 bytes: it is the sound cipher of that salt, and the rest is left in the stream.
  pub client_handshake_inv :
      (v : V2) (u : World) (c : Cipher)
      → (client_handshake cr v u).0 ≡ ok c
      → (salt : Bytes) × (stream u.conn.incoming
          ≡ handshake_header salt ++ stream (client_handshake cr v u).1.conn.incoming)
        × (length salt ≡ salt_size)
        × (cipher_from_salt cr v salt ≡ ok c)
        × IsSound c
  unfolding client_handshake arm_read
  client_handshake_inv v u c h =
      let arm = wrap_err "atxp.ClientHandshake" (arm_read v.timeout) in
      let fetch = map_err (failed "atxp.ClientHandshake") (read_full handshake_header_size) in
      let u1 = (arm u).1 in
      let (armed, e0, h1) = bind_inv arm (λ _. read_header v) u h in
      let (header, e1, h2) = bind_inv fetch (λ header. lift (check_header cr v header)) u1 h1 in
      let (p, len) =
        read_full_inv handshake_header_size u1 header
          (map_error_inv (failed "atxp.ClientHandshake") _ e1) in
      let (salt, eq, made) = check_header_inv v header c len h2 in
      let final =
        bind_ok arm (λ _. read_header v) u e0
        ∙ bind_ok fetch (λ header. lift (check_header cr v header)) u1 e1 in
      (
        salt,
        p ∙ ap₂ (λ a b. a ++ b) eq (ap (λ q. stream q.1.conn.incoming) (sym final)),
        omega (arith, ap length eq, length-handshake_header salt),
        made,
        cipher_from_salt-IsSound v salt c made,
      )
