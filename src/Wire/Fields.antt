-- ===== src/Wire/Fields.antt =====
-- Length-prefixed fields, and the converse of the round trips: what the abstract reader accepts is
-- what the encoders write.
use atxp.Common.{
  ℕ, Bool, true, false, ◌+◌, ◌%◌, ◌^◌, ◌<◌, ◌≡◌, refl, subst, some, [], ◌∷◌, ◌++◌, length, All,
  arith, append_assoc, length-take, take-append-drop, All-append, All-append_right,
}
use atxp.Common.Parser.{Parser, guard, continue_inv, ◌>>=◌, ◌>>◌}
use atxp.Wire.{Bytes, IsByte, append_uint32, append_uint64, append_field}
use atxp.Wire.Reader.{take_bytes, take_byte, take_uint32, take_uint64, take_field, at_end}
use atxp.Wire.Words.{take_bytes-append, take_uint32-append_uint32, append_uint32-IsByte}

pub append_field_nil : (buf f : Bytes) → append_field buf f ≡ buf ++ append_field [] f
unfolding append_field
append_field_nil buf f = rw append_assoc

pub length-append_field : (f : Bytes) → length (append_field [] f) ≡ 4 + length f
unfolding append_field append_uint32
length-append_field f = ground arith

pub append_field-IsByte : (f : Bytes) → All IsByte f → All IsByte (append_field [] f)
unfolding append_field
append_field-IsByte f h =
    All-append IsByte (append_uint32 [] (length f % 2 ^ 32)) f (append_uint32-IsByte _) h

pub take_field-append_field :
    (f rest : Bytes) → length f < 2 ^ 32 → take_field (append_field [] f ++ rest) ≡ some (f, rest)
unfolding take_field append_field
take_field-append_field f rest h = ground (
  arith,
  append_assoc (append_uint32 [] (length f % 2 ^ 32)) f rest,
  take_uint32-append_uint32 (length f % 2 ^ 32) (f ++ rest),
  take_bytes-append f rest,
)

pub take_bytes_inv :
    (n : ℕ) (bs f rest : Bytes)
    → take_bytes n bs ≡ some (f, rest)
    → (bs ≡ f ++ rest) × (length f ≡ n)
unfolding take_bytes
take_bytes_inv n bs f rest h = ground (arith, take-append-drop n bs, length-take n bs)

pub take_uint32_inv :
    (bs : Bytes) (v : ℕ) (rest : Bytes)
    → All IsByte bs
    → take_uint32 bs ≡ some (v, rest)
    → (bs ≡ append_uint32 [] v ++ rest) × (v < 2 ^ 32)
unfolding take_uint32 append_uint32
take_uint32_inv (a ∷ b ∷ c ∷ d ∷ bs) v rest h e = ground arith
take_uint32_inv [] v rest h e = ground arith
take_uint32_inv _ v rest h e = ground arith

pub take_uint64_inv :
    (bs : Bytes) (v : ℕ) (rest : Bytes)
    → All IsByte bs
    → take_uint64 bs ≡ some (v, rest)
    → (bs ≡ append_uint64 [] v ++ rest) × (v < 2 ^ 64)
unfolding take_uint64 append_uint64
take_uint64_inv (a ∷ b ∷ c ∷ d ∷ e ∷ f ∷ g ∷ h ∷ bs) v rest w p = ground arith
take_uint64_inv [] v rest w p = ground arith
take_uint64_inv _ v rest w p = ground arith

pub take_byte_inv :
    (bs : Bytes) (x : ℕ) (rest : Bytes) → take_byte bs ≡ some (x, rest) → bs ≡ x ∷ rest
unfolding take_byte
take_byte_inv [] x rest h = ground arith
take_byte_inv (y ∷ bs) x rest h = ground arith

pub take_field_inv :
    (bs f rest : Bytes)
    → All IsByte bs
    → take_field bs ≡ some (f, rest)
    → (bs ≡ append_field [] f ++ rest) × (length f < 2 ^ 32) × All IsByte rest
unfolding take_field append_field
take_field_inv bs f rest w h =
    let (n, mid, e1, e2) = continue_inv (take_uint32 bs) take_bytes (f, rest) h in
    let (p, lt) = take_uint32_inv bs n mid w e1 in
    let (q, len) = take_bytes_inv n mid f rest e2 in
    let w_mid = All-append_right IsByte (append_uint32 [] n) mid (subst (All IsByte) p w) in
    (
      ground (arith, append_assoc (append_uint32 [] n) f rest),
      omega arith,
      All-append_right IsByte f rest (subst (All IsByte) q w_mid),
    )

-- A reader that begins with a step and succeeds: what the step took, and the rest of the run.
module _ {A C : Type 0} {q : A × Bytes} (bs : Bytes) where
  pub after_byte :
      (f : ℕ → Parser Bytes A)
      → All IsByte bs
      → (take_byte >>= f) bs ≡ some q
      → ((x : ℕ) (rest : Bytes) → bs ≡ x ∷ rest → All IsByte rest → f x rest ≡ some q → C)
      → C
  after_byte f w h k =
      let (x, rest, e, h') = continue_inv (take_byte bs) f q h in
      let p = take_byte_inv bs x rest e in k x rest p (subst (All IsByte) p w).1 h'

  pub after_uint32 :
      (f : ℕ → Parser Bytes A)
      → All IsByte bs
      → (take_uint32 >>= f) bs ≡ some q
      → ((v : ℕ) (rest : Bytes)
          → bs ≡ append_uint32 [] v ++ rest
          → v < 2 ^ 32
          → All IsByte rest
          → f v rest ≡ some q
          → C)
      → C
  after_uint32 f w h k =
      let (v, rest, e, h') = continue_inv (take_uint32 bs) f q h in
      let (p, l) = take_uint32_inv bs v rest w e in
      k v rest p l (All-append_right IsByte (append_uint32 [] v) rest (subst (All IsByte) p w)) h'

  pub after_uint64 :
      (f : ℕ → Parser Bytes A)
      → All IsByte bs
      → (take_uint64 >>= f) bs ≡ some q
      → ((v : ℕ) (rest : Bytes)
          → bs ≡ append_uint64 [] v ++ rest
          → v < 2 ^ 64
          → All IsByte rest
          → f v rest ≡ some q
          → C)
      → C
  after_uint64 f w h k =
      let (v, rest, e, h') = continue_inv (take_uint64 bs) f q h in
      let (p, l) = take_uint64_inv bs v rest w e in
      k v rest p l (All-append_right IsByte (append_uint64 [] v) rest (subst (All IsByte) p w)) h'

  pub after_field :
      (f : Bytes → Parser Bytes A)
      → All IsByte bs
      → (take_field >>= f) bs ≡ some q
      → ((v rest : Bytes)
          → bs ≡ append_field [] v ++ rest
          → length v < 2 ^ 32
          → All IsByte rest
          → f v rest ≡ some q
          → C)
      → C
  after_field f w h k =
      let (v, rest, e, h') = continue_inv (take_field bs) f q h in
      let (p, l, w') = take_field_inv bs v rest w e in k v rest p l w' h'

  pub after_guard :
      (b : Bool) (m : Parser Bytes A)
      → (guard b >> m) bs ≡ some q
      → (b ≡ true → m bs ≡ some q → C)
      → C
  after_guard true m h k = k refl h
  after_guard false m h k = cc

  pub after_end :
      (m : Parser Bytes A)
      → (at_end >>= λ finished. guard finished >> m) bs ≡ some q
      → (bs ≡ [] → m [] ≡ some q → C)
      → C
  unfolding at_end
  after_end m h k = ends bs h k
    where
      ends :
          (bs : Bytes)
          → (at_end >>= λ finished. guard finished >> m) bs ≡ some q
          → (bs ≡ [] → m [] ≡ some q → C)
          → C
      ends [] h k = k refl h
      ends (x ∷ xs) h k = cc
