-- ===== src/Conn/Runs.antt =====
-- The reads of `io.ReadFull` are one run of those that a read deadline is good for.
use atxp.Common.{
  ℕ, zero, suc, ◌-◌, ◌≤◌, ◌<◌, ◌≡◌, ◌⊎◌, inl, inr, true, false, some, List, [], ◌∷◌, ◌++◌, length,
  leb, ltb, Bool-cases, arith,
}
use atxp.Common.Int.{ℤ}
use atxp.Conn.{
  Call, set_read_deadline, set_write_deadline, read, write, close, Event, arrive, fail, read_calls,
}
use atxp.Conn.Deadline.{reads, Under}

-- More runs, or as many and more room in the one that goes on.
abbrev NoMore : ℕ → ℕ → ℕ → ℕ → Type 0
NoMore k room k' room' = (k < k') ⊎ ((k ≡ k') × (room ≤ room'))

module _ (P : ℤ → Type 0) where
  -- What is permitted, more permits.
  Under-more :
      (k room k' room' : ℕ) (cs : List Call)
      → NoMore k room k' room'
      → Under P (some (reads k room)) cs
      → Under P (some (reads k' room')) cs
  Under-more k room k' room' [] m h = tt
  Under-more k room k' room' (set_read_deadline d ∷ cs) m h = h
  Under-more k room k' room' (set_write_deadline d ∷ cs) m h = h
  Under-more k room k' room' (write bs ∷ cs) m h = h
  Under-more k room k' room' (close ∷ cs) m h = h
  Under-more k room zero room' (read n ∷ cs) m (t, h) = (
    t,
    elim (Bool-cases (leb n room)) [
      | inl fits ↦
          let fits' : leb n room' ≡ true = ground (arith, m, fits) in
          rw fits' (Under-more k n zero n cs (omega (arith, m)) (rw fits at h))
      | inr over ↦ let none_left : k ≡ 0 = omega (arith, m) in absurd (rw (over, none_left) at h)
    ],
  )
  Under-more zero room (suc k') room' (read n ∷ cs) m (t, h) = (
    t,
    elim (Bool-cases (leb n room)) [
      | inl fits ↦ elim (Bool-cases (leb n room')) [
        | inl fits' ↦ rw fits' (Under-more zero n (suc k') n cs (omega arith) (rw fits at h))
        | inr over' ↦ rw over' (Under-more zero n k' n cs (omega arith) (rw fits at h))
      ]
      | inr over ↦ absurd (rw over at h)
    ],
  )
  Under-more (suc k) room (suc k') room' (read n ∷ cs) m (t, h) = (
    t,
    elim (Bool-cases (leb n room)) [
      | inl fits ↦ elim (Bool-cases (leb n room')) [
        | inl fits' ↦
            rw fits' (Under-more (suc k) n (suc k') n cs (omega (arith, m)) (rw fits at h))
        | inr over' ↦
            let more : suc k < suc k' = ground (arith, m, fits, over') in
            rw over' (Under-more (suc k) n k' n cs (omega (arith, more)) (rw fits at h))
      ]
      | inr over ↦ elim (Bool-cases (leb n room')) [
        | inl fits' ↦ rw fits' (Under-more k n (suc k') n cs (omega (arith, m)) (rw over at h))
        | inr over' ↦ rw over' (Under-more k n k' n cs (omega (arith, m)) (rw over at h))
      ]
    ],
  )

  -- In a run, reads into buffers that do not grow.
  Under-read_calls :
      (k room m : ℕ) (es : List Event) (cs : List Call)
      → m ≤ room
      → Under P (some (reads k 0)) cs
      → Under P (some (reads k room)) (read_calls m es ++ cs)
  unfolding read_calls
  Under-read_calls k room zero es cs le h = Under-more k 0 k room cs (omega arith) h
  Under-read_calls k room (suc m) [] cs le h =
      let fits : leb (suc m) room ≡ true = ground (arith, le) in
      (tt, rw fits (Under-more k 0 k (suc m) cs (omega arith) h))
  Under-read_calls k room (suc m) (fail e ∷ es) cs le h =
      let fits : leb (suc m) room ≡ true = ground (arith, le) in
      (tt, rw fits (Under-more k 0 k (suc m) cs (omega arith) h))
  Under-read_calls k room (suc m) (arrive bs ∷ es) cs le h =
      let fits : leb (suc m) room ≡ true = ground (arith, le) in
      let more = Under-read_calls k (suc m) (suc m - length bs) es cs (omega arith) h in
      elim (Bool-cases (ltb (length bs) (suc m))) [
        | inl short ↦ rw (short, fits) (tt, more)
        | inr full ↦ rw (full, fits) (tt, Under-more k 0 k (suc m) cs (omega arith) h)
      ]

  -- The first read of a run.
  Under-first :
      (k m : ℕ) (cs : List Call)
      → Under P (some (reads k (suc m))) (read (suc m) ∷ cs)
      → Under P (some (reads (suc k) 0)) (read (suc m) ∷ cs)
  Under-first k m cs (t, h) =
      let fits : leb (suc m) (suc m) ≡ true = ground arith in
      let over : leb (suc m) 0 ≡ false = ground arith in (t, rw over (rw fits at h))

  -- The reads of one `io.ReadFull`.
  pub Under-read_full :
      (k m : ℕ) (es : List Event) (cs : List Call)
      → Under P (some (reads k 0)) cs
      → Under P (some (reads (suc k) 0)) (read_calls m es ++ cs)
  unfolding read_calls
  Under-read_full k zero es cs h = Under-more k 0 (suc k) 0 cs (omega arith) h
  Under-read_full k (suc m) [] cs h =
      Under-first k m cs (Under-read_calls k (suc m) (suc m) [] cs (omega arith) h)
  Under-read_full k (suc m) (fail e ∷ es) cs h =
      Under-first k m cs (Under-read_calls k (suc m) (suc m) (fail e ∷ es) cs (omega arith) h)
  Under-read_full k (suc m) (arrive bs ∷ es) cs h =
      Under-first k m _ (Under-read_calls k (suc m) (suc m) (arrive bs ∷ es) cs (omega arith) h)
