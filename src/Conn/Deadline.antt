-- ===== src/Conn/Deadline.antt =====
-- Reads and writes under deadlines: which calls of a connection may follow which.
use atxp.Common.{
  leb, if◌then◌else◌, ℕ, zero, suc, ◌≡◌, ap, sym, ◌∙◌, subst, Option, none, some, List, [], ◌∷◌,
  ◌++◌, append_assoc, append-nil,
}
use atxp.Common.Int.{ℤ}
use atxp.Conn.{World, Call, set_read_deadline, set_write_deadline, read, write, close, close_conn}

-- What the deadline that was set last is still good for: nothing; so many more runs of reads, of which
-- the one that goes on has reads into buffers of at most so many bytes; or one write.
pub data Permit : Type 0 where
  idle : Permit
  reads : ℕ → ℕ → Permit
  writes : Permit

-- The first read of another run.
abbrev pub next_run : ℕ → ℕ → Option Permit
next_run zero n = none
next_run (suc k) n = some (reads k n)

-- What is permitted behind a call, if the call is. A read deadline is good for two runs of reads, in
-- each of which the buffers do not grow: the calls of `io.ReadFull` for the two parts of a frame.
abbrev pub after : Call → Permit → Option Permit
after (set_read_deadline d) p = some (reads 2 0)
after (set_write_deadline d) p = some writes
after (read n) idle = none
after (read n) (reads k room) = if leb n room then some (reads k n) else next_run k n
after (read n) writes = none
after (write bs) idle = none
after (write bs) (reads k room) = none
after (write bs) writes = some idle
after close p = some idle

module _ (P : ℤ → Type 0) where
  -- The duration of a deadline is one of those that are allowed.
  abbrev pub Timely : Call → Type 0
  Timely (set_read_deadline d) = P d
  Timely (set_write_deadline d) = P d
  Timely (read n) = Unit
  Timely (write bs) = Unit
  Timely close = Unit

  -- Every read and every write of the calls is under a deadline of its own frame.
  abbrev pub Under : Option Permit → List Call → Type 0
  Under none cs = ⊥
  Under (some p) [] = Unit
  Under (some p) (c ∷ cs) = Timely c × Under (after c p) cs

  Under-idle : (p : Permit) (cs : List Call) → Under (some idle) cs → Under (some p) cs
  Under-idle p [] h = tt
  Under-idle p (set_read_deadline d ∷ cs) h = h
  Under-idle p (set_write_deadline d ∷ cs) h = h
  Under-idle p (read n ∷ cs) h = absurd h.1
  Under-idle p (write bs ∷ cs) h = absurd h.1
  Under-idle p (close ∷ cs) h = h

  -- The calls from `w` to `w'` are under deadlines from `p` on, whatever keeps to that behind them.
  abbrev pub Guards : Permit → World → World → Type 0
  Guards p w w' =
      (calls : List Call) × (w'.conn.trace ≡ w.conn.trace ++ calls)
      × ((rest : List Call) → Under (some idle) rest → Under (some p) (calls ++ rest))

  pub Guards-none : (p : Permit) (w w' : World) → w'.conn.trace ≡ w.conn.trace → Guards p w w'
  Guards-none p w w' h = ([], h ∙ sym (append-nil w.conn.trace), λ rest k. Under-idle p rest k)

  pub Guards-trans : (p : Permit) (u v w : World) → Guards p u v → Guards idle v w → Guards p u w
  Guards-trans p u v w (xs, e, h) (ys, f, k) = (
    xs ++ ys,
    f ∙ ap (λ t. t ++ ys) e ∙ append_assoc u.conn.trace xs ys,
    λ rest r. subst (Under (some p)) (sym (append_assoc xs ys rest)) (h (ys ++ rest) (k rest r)),
  )

  -- `Close` ends them.
  pub Guards-close :
      (p : Permit) (w w' : World)
      → Guards p w w'
      → (calls : List Call) × ((close_conn w').1.conn.trace ≡ w.conn.trace ++ calls)
        × Under (some p) calls
  unfolding close_conn
  Guards-close p w w' (calls, e, h) = (
    calls ++ close ∷ [],
    ap (λ t. t ++ close ∷ []) e ∙ append_assoc w.conn.trace calls (close ∷ []),
    h (close ∷ []) (tt, tt),
  )

  -- First calls, and those behind them.
  pub Guards-calls :
      (p q : Permit) (cs : List Call) (u v w : World)
      → v.conn.trace ≡ u.conn.trace ++ cs
      → ((rest : List Call) → Under (some q) rest → Under (some p) (cs ++ rest))
      → Guards q v w
      → Guards p u w
  Guards-calls p q cs u v w e a (ys, f, k) = (
    cs ++ ys,
    f ∙ ap (λ x. x ++ ys) e ∙ append_assoc u.conn.trace cs ys,
    λ rest r. subst (Under (some p)) (sym (append_assoc cs ys rest)) (a (ys ++ rest) (k rest r)),
  )

  pub Guards-call :
      (p q : Permit) (c : Call) (u v w : World)
      → v.conn.trace ≡ u.conn.trace ++ c ∷ []
      → Timely c
      → after c p ≡ some q
      → Guards q v w
      → Guards p u w
  Guards-call p q c u v w e t a =
      Guards-calls p q (c ∷ []) u v w e (λ rest r. (t, subst (λ o. Under o rest) (sym a) r))
