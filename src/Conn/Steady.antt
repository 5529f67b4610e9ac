-- ===== src/Conn/Steady.antt =====
-- Actions on a connection on which no deadline call is going to fail: they leave it so. One rule for
-- each way to build an action.
use Prim.Native.String.{String}
use atxp.Common.{ℕ, ◌≡◌, ap, Bool, true, false, Option, List, [], if◌then◌else◌}
use atxp.Common.Int.{ℤ}
use atxp.Errors.{Error, Result, ok, err}
use atxp.Wire.{Bytes}
use atxp.Conn.{
  World, Entropy, Io, next_fault, write_bytes, arm_read, arm_write, read_full, pure, throw, lift,
  wrap_err, map_err, on_entropy, continue, ◌>>=◌,
}

abbrev pub NoDeadlineFails : World → Type 0
NoDeadlineFails w = w.conn.deadline_faults ≡ []

module _ {A : Type 0} where
  pub record Steady (m : Io A) : Type 0 where
    pub after : (w : World) → NoDeadlineFails w → NoDeadlineFails (m w).1

  pub Steady-pure : (a : A) → Steady (pure a)
  Steady-pure a = record { after = λ w h. h }

  pub Steady-throw : (e : Error) → Steady (throw {A = A} e)
  Steady-throw e = record { after = λ w h. h }

  pub Steady-lift : (r : Result A) → Steady (lift r)
  Steady-lift r = record { after = λ w h. h }

  pub Steady-entropy : (f : Entropy → Result A × Entropy) → Steady (on_entropy f)
  Steady-entropy f = record { after = λ w h. h }

  pub Steady-wrap_err : (s : String) (m : Io A) → Steady m → Steady (wrap_err s m)
  Steady-wrap_err s m k = record { after = λ w h. k.after w h }

  pub Steady-map_err : (f : Error → Error) (m : Io A) → Steady m → Steady (map_err f m)
  Steady-map_err f m k = record { after = λ w h. k.after w h }

  pub Steady-if : (b : Bool) (m n : Io A) → Steady m → Steady n → Steady (if b then m else n)
  Steady-if true m n h k = h
  Steady-if false m n h k = k

module _ {A B : Type 0} where
  continue-Steady :
      (f : A → Io B) (r : Result A) (w : World)
      → ((a : A) → Steady (f a))
      → NoDeadlineFails w
      → NoDeadlineFails (continue r f w).1
  continue-Steady f (ok a) w k h = (k a).after w h
  continue-Steady f (err e) w k h = h

  pub Steady-bind :
      (m : Io A) (f : A → Io B) → Steady m → ((a : A) → Steady (f a)) → Steady (m >>= f)
  Steady-bind m f h k = record { after = λ w q. continue-Steady f (m w).0 (m w).1 k (h.after w q) }

next_fault_none : (fs : List (Option Error)) → fs ≡ [] → (next_fault fs).1 ≡ []
next_fault_none fs h = ap (λ l. (next_fault l).1) h

pub Steady-read_full : (n : ℕ) → Steady (read_full n)
unfolding read_full
Steady-read_full n = record { after = λ w h. h }

pub Steady-arm_read : (d : ℤ) → Steady (arm_read d)
unfolding arm_read
Steady-arm_read d = record { after = λ w h. next_fault_none w.conn.deadline_faults h }

pub Steady-arm_write : (d : ℤ) → Steady (arm_write d)
unfolding arm_write
Steady-arm_write d = record { after = λ w h. next_fault_none w.conn.deadline_faults h }

pub Steady-write_bytes : (bs : Bytes) → Steady (write_bytes bs)
unfolding write_bytes
Steady-write_bytes bs = record { after = λ w h. h }

pub ruleset steady_rules = (
  Steady-pure, Steady-throw, Steady-lift, Steady-entropy, Steady-wrap_err, Steady-map_err,
  Steady-if, Steady-bind, Steady-read_full, Steady-arm_read, Steady-arm_write, Steady-write_bytes,
)
