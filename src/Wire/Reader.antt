-- ===== src/Wire/Reader.antt =====
-- The cursor of `envelopeReader` refines plain consumption of a list from its front.
use atxp.Common.{
  ℕ, suc, ◌≤◌, ◌≡◌, refl, Bool, true, false, Option, none, some, [], ◌∷◌, length, take, drop, ltb,
  ◌==◌, if◌then◌else◌, arith, length-drop, drop-drop, subst,
}
use atxp.Common.Parser.{Parser, pure, guard, continue, ◌>>=◌}
use atxp.Wire.{
  Bytes, EnvelopeReader, first, uint32, uint64, read_byte, read_uint32, read_uint64, read_bytes,
  read_field, done,
}

-- What the cursor has not read.
abbrev pub remaining : EnvelopeReader → Bytes
remaining r = drop r.off r.b

abbrev pub IsInside : EnvelopeReader → Type 0
IsInside r = r.off ≤ length r.b

-- The abstract reader: `n` elements off the front, if there are as many.
unfoldable pub take_bytes : ℕ → Parser Bytes Bytes
take_bytes n bs = if ltb (length bs) n then none else some (take n bs, drop n bs)

unfoldable pub take_byte : Parser Bytes ℕ
unfolding take_bytes
take_byte = do bs ← take_bytes 1; pure (first bs)

unfoldable pub take_uint32 : Parser Bytes ℕ
unfolding take_bytes uint32
take_uint32 = do bs ← take_bytes 4; pure (uint32 bs)

unfoldable pub take_uint64 : Parser Bytes ℕ
unfolding take_bytes uint64
take_uint64 = do bs ← take_bytes 8; pure (uint64 bs)

unfoldable pub take_field : Parser Bytes Bytes
take_field = do n ← take_uint32; take_bytes n

unfoldable pub at_end : Parser Bytes Bool
at_end [] = some (true, [])
at_end (x ∷ xs) = some (false, x ∷ xs)

-- Both fail, or both give the same value and the cursor stands where the list goes on.
module _ {A : Type 0} where
  abbrev pub Simulates : Option (A × EnvelopeReader) → Option (A × Bytes) → Type 0
  Simulates none none = Unit
  Simulates none (some q) = ⊥
  Simulates (some p) none = ⊥
  Simulates (some (a, r)) (some (c, bs)) = (a ≡ c) × (remaining r ≡ bs) × IsInside r

  pub record Refines (m : Parser EnvelopeReader A) (p : Parser Bytes A) : Type 0 where
    pub at : (r : EnvelopeReader) → IsInside r → Simulates (m r) (p (remaining r))

  pub Refines-pure : (a : A) → Refines (pure a) (pure a)
  Refines-pure a = record { at = λ r h. (refl, refl, h) }

pub Refines-guard : (b : Bool) → Refines (guard b) (guard b)
Refines-guard true = record { at = λ r h. (refl, refl, h) }
Refines-guard false = record { at = λ r h. tt }

module _ {A B : Type 0} where
  Refines-continue :
      (f : A → Parser EnvelopeReader B) (g : A → Parser Bytes B) (x : Option (A × EnvelopeReader))
      (y : Option (A × Bytes))
      → ((a : A) → Refines (f a) (g a))
      → Simulates x y
      → Simulates (continue x f) (continue y g)
  Refines-continue f g none none k h = tt
  Refines-continue f g none (some q) k h = absurd h
  Refines-continue f g (some p) none k h = absurd h
  Refines-continue f g (some (a, r)) (some (c, bs)) k (e, e', i) =
      subst (λ c. Simulates (f a r) (g c bs)) e
        (subst (λ bs. Simulates (f a r) (g a bs)) e' ((k a).at r i))

  pub Refines-bind :
      (m : Parser EnvelopeReader A) (p : Parser Bytes A) (f : A → Parser EnvelopeReader B)
      (g : A → Parser Bytes B)
      → Refines m p
      → ((a : A) → Refines (f a) (g a))
      → Refines (m >>= f) (p >>= g)
  Refines-bind m p f g h k = record {
    at = λ r i. Refines-continue f g (m r) (p (remaining r)) k (h.at r i);
  }

Refines-bytes : (n : ℕ) → Refines (read_bytes n) (take_bytes n)
unfolding read_bytes take_bytes
Refines-bytes n = record {
  at = λ r i. ground (arith, length-drop r.off r.b, drop-drop n r.off r.b);
}

first-take : (n : ℕ) (bs : Bytes) → first (take (suc n) bs) ≡ first bs
first-take n [] = refl
first-take n (x ∷ bs) = refl

uint32-take : (n : ℕ) (bs : Bytes) → uint32 (take (suc (suc (suc (suc n)))) bs) ≡ uint32 bs
unfolding uint32
uint32-take n [] = refl
uint32-take n (a ∷ []) = refl
uint32-take n (a ∷ b ∷ []) = refl
uint32-take n (a ∷ b ∷ c ∷ []) = refl
uint32-take n (a ∷ b ∷ c ∷ d ∷ bs) = refl

second_word : (bs : Bytes) → uint32 (drop 4 (take 8 bs)) ≡ uint32 (drop 4 bs)
second_word [] = refl
second_word (a ∷ []) = refl
second_word (a ∷ b ∷ []) = refl
second_word (a ∷ b ∷ c ∷ []) = refl
second_word (a ∷ b ∷ c ∷ d ∷ bs) = uint32-take 0 bs

uint64-take : (bs : Bytes) → uint64 (take 8 bs) ≡ uint64 bs
unfolding uint64
uint64-take bs = cc (uint32-take 4 bs, second_word bs)

pub Refines-byte : Refines read_byte take_byte
unfolding read_byte take_byte
Refines-byte = record {
  at = λ r i.
      ground (arith, length-drop r.off r.b, drop-drop 1 r.off r.b, first-take 0 (drop r.off r.b));
}

pub Refines-uint32 : Refines read_uint32 take_uint32
unfolding read_uint32 take_uint32
Refines-uint32 = record {
  at = λ r i.
      ground (arith, length-drop r.off r.b, drop-drop 4 r.off r.b, uint32-take 0 (drop r.off r.b));
}

pub Refines-uint64 : Refines read_uint64 take_uint64
unfolding read_uint64 take_uint64
Refines-uint64 = record {
  at = λ r i.
      ground (arith, length-drop r.off r.b, drop-drop 8 r.off r.b, uint64-take (drop r.off r.b));
}

pub Refines-field : Refines read_field take_field
unfolding read_field take_field
Refines-field = search (Refines-bind, Refines-uint32, Refines-bytes)

at_end_lem : (bs : Bytes) → at_end bs ≡ some (length bs == 0, bs)
unfolding at_end
at_end_lem [] = refl
at_end_lem (x ∷ xs) = ground arith

pub Refines-done : Refines done at_end
unfolding done
Refines-done = record {
  at = λ r i. ground (arith, length-drop r.off r.b, at_end_lem (drop r.off r.b));
}

pub ruleset reader_rules = (
  Refines-pure, Refines-guard, Refines-bind, Refines-byte, Refines-uint32, Refines-uint64,
  Refines-field, Refines-done,
)
