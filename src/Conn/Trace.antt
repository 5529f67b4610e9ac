-- ===== src/Conn/Trace.antt =====
-- Which calls an action makes on its connection: one rule for each way to build an action.
use Prim.Native.String.{String}
use atxp.Common.{
  zero, suc, ◌-◌, ◌≤◌, length, ltb, Bool-cases, inl, inr, arith, ℕ, ◌≡◌, refl, sym, ap, ◌∙◌, Bool,
  true, false, List, [], ◌∷◌, ◌++◌, All, All-append, append_assoc, append-nil, if◌then◌else◌,
}
use atxp.Common.Int.{ℤ}
use atxp.Errors.{Error, Result, ok, err}
use atxp.Wire.{Bytes}
use atxp.Conn.{
  World, Entropy, Io, Call, read, write, sent, next_fault, write_bytes, set_read_deadline,
  set_write_deadline, arm_read, arm_write, read_full, read_calls, Event, arrive, fail, pure, throw,
  lift, wrap_err, wrapped, map_err, map_error, on_entropy, continue, ◌>>=◌,
}

-- The calls that took the trace of `w` to that of `w'`.
abbrev pub CallsBetween : (Call → Type 0) → World → World → Type 0
CallsBetween P w w' = (calls : List Call) × (w'.conn.trace ≡ w.conn.trace ++ calls) × All P calls

-- Every call that `m` makes on the connection satisfies `P`.
module _ {A : Type 0} where
  pub record Makes (P : Call → Type 0) (m : Io A) : Type 0 where
    pub at : (w : World) → CallsBetween P w (m w).1

pub no_calls :
    {P : Call → Type 0} (w w' : World) → w'.conn.trace ≡ w.conn.trace → CallsBetween P w w'
no_calls w w' h = ([], h ∙ sym (append-nil w.conn.trace), tt)

pub CallsBetween-trans :
    (P : Call → Type 0) (u v w : World)
    → CallsBetween P u v
    → CallsBetween P v w
    → CallsBetween P u w
CallsBetween-trans P u v w (xs, p, h) (ys, q, k) =
    (xs ++ ys, q ∙ ap (λ t. t ++ ys) p ∙ append_assoc u.conn.trace xs ys, All-append P xs ys h k)

module _ {A : Type 0} (P : Call → Type 0) where
  pub Makes-pure : (a : A) → Makes P (pure a)
  Makes-pure a = record { at = λ w. no_calls w w refl }

  pub Makes-throw : (e : Error) → Makes P (throw {A = A} e)
  Makes-throw e = record { at = λ w. no_calls w w refl }

  pub Makes-lift : (r : Result A) → Makes P (lift r)
  Makes-lift r = record { at = λ w. no_calls w w refl }

  pub Makes-entropy : (f : Entropy → Result A × Entropy) → Makes P (on_entropy f)
  Makes-entropy f = record { at = λ w. no_calls w (on_entropy f w).1 refl }

  pub Makes-wrap_err : (s : String) (m : Io A) → Makes P m → Makes P (wrap_err s m)
  Makes-wrap_err s m h = record { at = λ w. h.at w }

  pub Makes-map_err : (f : Error → Error) (m : Io A) → Makes P m → Makes P (map_err f m)
  Makes-map_err f m h = record { at = λ w. h.at w }

  pub Makes-if : (b : Bool) (m n : Io A) → Makes P m → Makes P n → Makes P (if b then m else n)
  Makes-if true m n h k = h
  Makes-if false m n h k = k

module _ {A B : Type 0} (P : Call → Type 0) where
  Makes-continue :
      (f : A → Io B) (r : Result A) (w : World)
      → ((a : A) → Makes P (f a))
      → CallsBetween P w (continue r f w).1
  Makes-continue f (ok a) w k = (k a).at w
  Makes-continue f (err e) w k = no_calls w w refl

  pub Makes-bind :
      (m : Io A) (f : A → Io B) → Makes P m → ((a : A) → Makes P (f a)) → Makes P (m >>= f)
  Makes-bind m f h k = record {
    at = λ w.
        let (r, w') = m w in
        CallsBetween-trans P w w' (continue r f w').1 (h.at w) (Makes-continue f r w' k);
  }

module _ (P : Call → Type 0) where
  All-read_calls :
      (n m : ℕ) (es : List Event) → ((k : ℕ) → k ≤ n → P (read k)) → m ≤ n → All P (read_calls m es)
  unfolding read_calls
  All-read_calls n zero es h le = tt
  All-read_calls n (suc m) [] h le = (h (suc m) le, tt)
  All-read_calls n (suc m) (fail e ∷ es) h le = (h (suc m) le, tt)
  All-read_calls n (suc m) (arrive bs ∷ es) h le =
      let more = All-read_calls n (suc m - length bs) es h (omega arith) in
      elim (Bool-cases (ltb (length bs) (suc m))) [
        | inl short ↦ rw short (h (suc m) le, more)
        | inr full ↦ rw full (h (suc m) le, tt)
      ]

  -- The `Read`s of `io.ReadFull` are into its buffer or a part of it.
  pub Makes-read_full : (n : ℕ) → ((k : ℕ) → k ≤ n → P (read k)) → Makes P (read_full n)
  unfolding read_full
  Makes-read_full n h = record {
    at = λ w.
        (read_calls n w.conn.incoming, refl, All-read_calls n n w.conn.incoming h (omega arith));
  }

  pub Makes-arm_read : (d : ℤ) → P (set_read_deadline d) → Makes P (arm_read d)
  unfolding arm_read
  Makes-arm_read d h = record { at = λ w. (set_read_deadline d ∷ [], refl, (h, tt)) }

  pub Makes-arm_write : (d : ℤ) → P (set_write_deadline d) → Makes P (arm_write d)
  unfolding arm_write
  Makes-arm_write d h = record { at = λ w. (set_write_deadline d ∷ [], refl, (h, tt)) }

  -- A write that is cut short puts out a part of its bytes.
  pub Makes-write_bytes : (bs : Bytes) → ((out : Bytes) → P (write out)) → Makes P (write_bytes bs)
  unfolding write_bytes
  Makes-write_bytes bs h = record {
    at = λ w. (write (sent (next_fault w.conn.write_faults).0 bs) ∷ [], refl, (h _, tt));
  }

pub ruleset trace_rules = (
  Makes-pure, Makes-throw, Makes-lift, Makes-entropy, Makes-wrap_err, Makes-map_err, Makes-if,
  Makes-bind, Makes-read_full, Makes-arm_read, Makes-arm_write, Makes-write_bytes,
)

module _ {A B : Type 0} where
  continue_inv :
      (r : Result A) (f : A → Io B) (w : World) {b : B}
      → (continue r f w).0 ≡ ok b
      → (a : A) × (r ≡ ok a) × ((f a w).0 ≡ ok b)
  continue_inv (ok a) f w h = (a, refl, h)
  continue_inv (err e) f w h = cc

  -- A block that succeeds went through its first action.
  pub bind_inv :
      (m : Io A) (f : A → Io B) (w : World) {b : B}
      → ((m >>= f) w).0 ≡ ok b
      → (a : A) × ((m w).0 ≡ ok a) × ((f a (m w).1).0 ≡ ok b)
  bind_inv m f w h = continue_inv (m w).0 f (m w).1 h

module _ {A : Type 0} where
  pub wrapped_inv : (s : String) (r : Result A) {a : A} → wrapped s r ≡ ok a → r ≡ ok a
  wrapped_inv s (ok b) h = h
  wrapped_inv s (err e) h = cc

  pub map_error_inv : (f : Error → Error) (r : Result A) {a : A} → map_error f r ≡ ok a → r ≡ ok a
  map_error_inv f (ok b) h = h
  map_error_inv f (err e) h = cc

module _ {A B : Type 0} where
  -- A block goes on where its first action succeeded.
  pub bind_ok :
      (m : Io A) (f : A → Io B) (w : World) {a : A} → (m w).0 ≡ ok a → (m >>= f) w ≡ f a (m w).1
  bind_ok m f w e = rw e
