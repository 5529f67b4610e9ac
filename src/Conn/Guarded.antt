-- ===== src/Conn/Guarded.antt =====
-- One rule for each way to build an action whose reads and writes are under deadlines.
use Prim.Native.String.{String}
use atxp.Common.{ℕ, suc, refl, Bool, true, false, if◌then◌else◌}
use atxp.Common.Int.{ℤ}
use atxp.Errors.{Error, Result, ok, err}
use atxp.Wire.{Bytes}
use atxp.Conn.{
  World, Entropy, Io, set_read_deadline, set_write_deadline, read_calls, write, sent, next_fault,
  write_bytes, arm_read, arm_write, read_full, pure, throw, lift, wrap_err, map_err, on_entropy,
  continue, ◌>>=◌,
}
use atxp.Conn.Deadline.{
  Permit, idle, reads, writes, Guards, Guards-none, Guards-trans, Guards-call, Guards-calls,
}
use atxp.Conn.Runs.{Under-read_full}

module _ (P : ℤ → Type 0) where
  module _ {A : Type 0} where
    pub record Guarded (p : Permit) (m : Io A) : Type 0 where
      pub at : (w : World) → Guards P p w (m w).1

    pub Guarded-pure : (p : Permit) (a : A) → Guarded p (pure a)
    Guarded-pure p a = record { at = λ w. Guards-none P p w w refl }

    pub Guarded-throw : (p : Permit) (e : Error) → Guarded p (throw {A = A} e)
    Guarded-throw p e = record { at = λ w. Guards-none P p w w refl }

    pub Guarded-lift : (p : Permit) (r : Result A) → Guarded p (lift r)
    Guarded-lift p r = record { at = λ w. Guards-none P p w w refl }

    pub Guarded-entropy : (p : Permit) (f : Entropy → Result A × Entropy) → Guarded p (on_entropy f)
    Guarded-entropy p f = record { at = λ w. Guards-none P p w (on_entropy f w).1 refl }

    pub Guarded-wrap_err :
        (p : Permit) (s : String) (m : Io A) → Guarded p m → Guarded p (wrap_err s m)
    Guarded-wrap_err p s m h = record { at = λ w. h.at w }

    pub Guarded-map_err :
        (p : Permit) (f : Error → Error) (m : Io A) → Guarded p m → Guarded p (map_err f m)
    Guarded-map_err p f m h = record { at = λ w. h.at w }

    pub Guarded-if :
        (p : Permit) (b : Bool) (m n : Io A)
        → Guarded p m
        → Guarded p n
        → Guarded p (if b then m else n)
    Guarded-if p true m n h k = h
    Guarded-if p false m n h k = k

  module _ {A B : Type 0} where
    Guards-continue :
        (p : Permit) (f : A → Io B) (r : Result A) (w : World)
        → ((a : A) → Guarded p (f a))
        → Guards P p w (continue r f w).1
    Guards-continue p f (ok a) w k = (k a).at w
    Guards-continue p f (err e) w k = Guards-none P p w w refl

    pub Guarded-bind :
        (p : Permit) (m : Io A) (f : A → Io B)
        → Guarded p m
        → ((a : A) → Guarded idle (f a))
        → Guarded p (m >>= f)
    Guarded-bind p m f h k = record {
      at = λ w.
          let (r, w') = m w in
          Guards-trans P p w w' (continue r f w').1 (h.at w) (Guards-continue idle f r w' k);
    }

  module _ {B : Type 0} where
    -- A deadline, and what it is good for.
    pub Guarded-arm_read :
        (p : Permit) (s : String) (d : ℤ) (f : Unit {0} → Io B)
        → P d
        → ((u : Unit {0}) → Guarded (reads 2 0) (f u))
        → Guarded p (wrap_err s (arm_read d) >>= f)
    unfolding arm_read
    Guarded-arm_read p s d f h k = record {
      at = λ w.
          let (r, w') = wrap_err s (arm_read d) w in
          Guards-call P p (reads 2 0) (set_read_deadline d) w w' (continue r f w').1 refl h refl
            (Guards-continue (reads 2 0) f r w' k);
    }

    pub Guarded-arm_write :
        (p : Permit) (s : String) (d : ℤ) (f : Unit {0} → Io B)
        → P d
        → ((u : Unit {0}) → Guarded writes (f u))
        → Guarded p (wrap_err s (arm_write d) >>= f)
    unfolding arm_write
    Guarded-arm_write p s d f h k = record {
      at = λ w.
          let (r, w') = wrap_err s (arm_write d) w in
          Guards-call P p writes (set_write_deadline d) w w' (continue r f w').1 refl h refl
            (Guards-continue writes f r w' k);
    }

    pub Guarded-read_full :
        (j n : ℕ) (f : Bytes → Io B)
        → ((bs : Bytes) → Guarded (reads j 0) (f bs))
        → Guarded (reads (suc j) 0) (read_full n >>= f)
    unfolding read_full
    Guarded-read_full j n f k = record {
      at = λ w.
          let (r, w') = read_full n w in
          Guards-calls P (reads (suc j) 0) (reads j 0) (read_calls n w.conn.incoming) w w'
            (continue r f w').1 refl (Under-read_full P j n w.conn.incoming)
            (Guards-continue (reads j 0) f r w' k);
    }

    pub Guarded-read_full_or :
        (j n : ℕ) (g : Error → Error) (f : Bytes → Io B)
        → ((bs : Bytes) → Guarded (reads j 0) (f bs))
        → Guarded (reads (suc j) 0) (map_err g (read_full n) >>= f)
    unfolding read_full
    Guarded-read_full_or j n g f k = record {
      at = λ w.
          let (r, w') = map_err g (read_full n) w in
          Guards-calls P (reads (suc j) 0) (reads j 0) (read_calls n w.conn.incoming) w w'
            (continue r f w').1 refl (Under-read_full P j n w.conn.incoming)
            (Guards-continue (reads j 0) f r w' k);
    }

  pub Guarded-write_bytes : (bs : Bytes) → Guarded writes (write_bytes bs)
  unfolding write_bytes
  Guarded-write_bytes bs = record {
    at = λ w.
        let w' = (write_bytes bs w).1 in
        Guards-call P writes idle (write (sent (next_fault w.conn.write_faults).0 bs)) w w' w' refl
          tt refl (Guards-none P idle w' w' refl);
  }

pub ruleset deadline_rules = (
  Guarded-pure, Guarded-throw, Guarded-lift, Guarded-entropy, Guarded-wrap_err, Guarded-map_err,
  Guarded-if, Guarded-arm_read, Guarded-arm_write, Guarded-read_full, Guarded-read_full_or,
  Guarded-write_bytes,
)
