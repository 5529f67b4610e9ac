-- ===== src/Conn/Consumes.antt =====
-- Actions on a connection take what comes in from the front: one rule for each way to build an action.
use Prim.Native.String.{String}
use atxp.Common.{
  ℕ, zero, suc, ◌-◌, ◌≡◌, refl, ap, sym, ◌∙◌, Bool, true, false, List, [], ◌∷◌, ◌++◌, length, take,
  drop, ltb, append_assoc, take-append-drop, Bool-cases, inl, inr, if◌then◌else◌,
}
use atxp.Common.Int.{ℤ}
use atxp.Errors.{Error, Result, ok, err}
use atxp.Wire.{Bytes}
use atxp.Conn.{
  World, Event, arrive, fail, Entropy, Io, write_bytes, arm_read, arm_write, read_loop, read_full,
  pure, throw, lift, wrap_err, map_err, on_entropy, continue, ◌>>=◌,
}
use atxp.Conn.Stream.{stream}

-- All the bytes that come in, also those behind a failure.
abbrev pub arriving : List Event → Bytes
arriving [] = []
arriving (arrive bs ∷ es) = bs ++ arriving es
arriving (fail e ∷ es) = arriving es

-- Those behind the first failure.
abbrev pub behind_failure : List Event → Bytes
behind_failure [] = []
behind_failure (arrive bs ∷ es) = behind_failure es
behind_failure (fail e ∷ es) = arriving es

pub arriving-stream : (es : List Event) → arriving es ≡ stream es ++ behind_failure es
arriving-stream [] = refl
arriving-stream (arrive bs ∷ es) =
    ap (λ t. bs ++ t) (arriving-stream es) ∙ sym (append_assoc bs (stream es) (behind_failure es))
arriving-stream (fail e ∷ es) = refl

-- From `es` some bytes were taken, and `es'` is left.
abbrev pub Taken : List Event → List Event → Type 0
Taken es es' = (front : Bytes) × (arriving es ≡ front ++ arriving es')

pub Taken-trans : (es es1 es2 : List Event) → Taken es es1 → Taken es1 es2 → Taken es es2
Taken-trans es es1 es2 (xs, p) (ys, q) =
    (xs ++ ys, p ∙ ap (λ t. xs ++ t) q ∙ sym (append_assoc xs ys (arriving es2)))

read_loop-Taken : (n : ℕ) (acc : Bytes) (es : List Event) → Taken es (read_loop n acc es).1
unfolding read_loop
read_loop-Taken zero acc es = ([], refl)
read_loop-Taken (suc k) acc [] = ([], refl)
read_loop-Taken (suc k) acc (fail e ∷ es) = ([], refl)
read_loop-Taken (suc k) acc (arrive bs ∷ es) = elim (Bool-cases (ltb (length bs) (suc k))) [
  | inl short ↦
      let (front, p) = read_loop-Taken (suc k - length bs) (acc ++ bs) es in
      rw short (
        bs ++ front,
        ap (λ t. bs ++ t) p
            ∙ sym
                (append_assoc bs front (arriving (read_loop (suc k - length bs) (acc ++ bs) es).1)),
      )
  | inr enough ↦ rw enough (
    take (suc k) bs,
    ap (λ t. t ++ arriving es) (sym (take-append-drop (suc k) bs))
        ∙ append_assoc (take (suc k) bs) (drop (suc k) bs) (arriving es),
  )
]

module _ {A : Type 0} where
  pub record Consumes (m : Io A) : Type 0 where
    pub at : (w : World) → Taken w.conn.incoming (m w).1.conn.incoming

  pub Consumes-pure : (a : A) → Consumes (pure a)
  Consumes-pure a = record { at = λ w. ([], refl) }

  pub Consumes-throw : (e : Error) → Consumes (throw {A = A} e)
  Consumes-throw e = record { at = λ w. ([], refl) }

  pub Consumes-lift : (r : Result A) → Consumes (lift r)
  Consumes-lift r = record { at = λ w. ([], refl) }

  pub Consumes-entropy : (f : Entropy → Result A × Entropy) → Consumes (on_entropy f)
  Consumes-entropy f = record { at = λ w. ([], refl) }

  pub Consumes-wrap_err : (s : String) (m : Io A) → Consumes m → Consumes (wrap_err s m)
  Consumes-wrap_err s m h = record { at = λ w. h.at w }

  pub Consumes-map_err : (f : Error → Error) (m : Io A) → Consumes m → Consumes (map_err f m)
  Consumes-map_err f m h = record { at = λ w. h.at w }

  pub Consumes-if :
      (b : Bool) (m n : Io A) → Consumes m → Consumes n → Consumes (if b then m else n)
  Consumes-if true m n h k = h
  Consumes-if false m n h k = k

module _ {A B : Type 0} where
  continue-Taken :
      (f : A → Io B) (r : Result A) (w : World)
      → ((a : A) → Consumes (f a))
      → Taken w.conn.incoming (continue r f w).1.conn.incoming
  continue-Taken f (ok a) w k = (k a).at w
  continue-Taken f (err e) w k = ([], refl)

  pub Consumes-bind :
      (m : Io A) (f : A → Io B) → Consumes m → ((a : A) → Consumes (f a)) → Consumes (m >>= f)
  Consumes-bind m f h k = record {
    at = λ w.
        Taken-trans w.conn.incoming (m w).1.conn.incoming
          (continue (m w).0 f (m w).1).1.conn.incoming (h.at w)
          (continue-Taken f (m w).0 (m w).1 k);
  }

pub Consumes-read_full : (n : ℕ) → Consumes (read_full n)
unfolding read_full
Consumes-read_full n = record { at = λ w. read_loop-Taken n [] w.conn.incoming }

pub Consumes-arm_read : (d : ℤ) → Consumes (arm_read d)
unfolding arm_read
Consumes-arm_read d = record { at = λ w. ([], refl) }

pub Consumes-arm_write : (d : ℤ) → Consumes (arm_write d)
unfolding arm_write
Consumes-arm_write d = record { at = λ w. ([], refl) }

pub Consumes-write_bytes : (bs : Bytes) → Consumes (write_bytes bs)
unfolding write_bytes
Consumes-write_bytes bs = record { at = λ w. ([], refl) }

pub ruleset consume_rules = (
  Consumes-pure, Consumes-throw, Consumes-lift, Consumes-entropy, Consumes-wrap_err,
  Consumes-map_err, Consumes-if, Consumes-bind, Consumes-read_full, Consumes-arm_read,
  Consumes-arm_write, Consumes-write_bytes,
)
