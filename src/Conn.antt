-- ===== src/Conn.antt =====
-- v2.go, `SecureConn` and the calls that are made on it; crypto/rand. Everything outside the process
-- is a script: what the peer delivers, which calls fail, which random bytes come.
pub mod Stream
pub mod Trace
pub mod Steady
pub mod Consumes
pub mod Deadline
pub mod Runs
pub mod Guarded
use Prim.Native.String.{String}
use atxp.Common.{
  ℕ, zero, suc, ◌+◌, ◌-◌, ◌%◌, Option, none, some, List, [], ◌∷◌, ◌++◌, length, take, drop, ltb,
  if◌then◌else◌,
}
use atxp.Common.Int.{ℤ}
use atxp.Errors.{Error, Result, ok, err, eof, unexpected_eof, wrap}
use atxp.Wire.{Bytes}

-- What `Read` returns in turn: bytes that have come in (maybe only some of them, if the buffer is
-- small), or an error. An exhausted script is the end of the stream.
pub data Event : Type 0 where
  arrive : Bytes → Event
  fail : Error → Event

-- A call on the connection. A deadline is the time from now; of a read, the size of the buffer; of a
-- write, the bytes that went out.
pub data Call : Type 0 where
  set_read_deadline : ℤ → Call
  set_write_deadline : ℤ → Call
  read : ℕ → Call
  write : Bytes → Call
  close : Call

-- A write fault is the number of bytes that still go out, and the error. Each list of faults has an
-- entry for each coming call, none where the call succeeds; past the end all succeed.
pub record Conn : Type 0 where
  pub incoming : List Event
  pub write_faults : List (Option (ℕ × Error))
  pub deadline_faults : List (Option Error)
  pub close_fault : Option Error
  pub trace : List Call

pub record Entropy : Type 0 where
  pub source : ℕ → ℕ
  pub drawn : ℕ
  pub faults : List (Option Error)

pub record World : Type 0 where
  pub conn : Conn
  pub entropy : Entropy

abbrev pub Io : Type 0 → Type 0
Io A = World → Result A × World

module _ {A : Type 0} where
  abbrev pub pure : A → Io A
  pure a w = (ok a, w)

  abbrev pub throw : Error → Io A
  throw e w = (err e, w)

  abbrev pub lift : Result A → Io A
  lift r w = (r, w)

  abbrev pub wrapped : String → Result A → Result A
  wrapped s (ok a) = ok a
  wrapped s (err e) = err (wrap s e)

  -- fmt.Errorf("s: %w", err) around the error of a call
  abbrev pub wrap_err : String → Io A → Io A
  wrap_err s m w = let (r, w') = m w in (wrapped s r, w')

  abbrev pub map_error : (Error → Error) → Result A → Result A
  map_error f (ok a) = ok a
  map_error f (err e) = err (f e)

  -- another error in the place of the one of a call
  abbrev pub map_err : (Error → Error) → Io A → Io A
  map_err f m w = let (r, w') = m w in (map_error f r, w')

module _ {A B : Type 0} where
  abbrev pub continue : Result A → (A → Io B) → Io B
  continue (ok a) f w = f a w
  continue (err e) f w = (err e, w)

  infixl 5 ◌>>=◌ ◌>>◌
  abbrev pub ◌>>=◌ : Io A → (A → Io B) → Io B
  ◌>>=◌ m f w = let (r, w') = m w in continue r f w'

  abbrev pub ◌>>◌ : Io A → Io B → Io B
  m >> n = m >>= λ _. n

module _ {X : Type 0} where
  -- The outcome of the next call, and the script of those behind it.
  abbrev pub next_fault : List (Option X) → Option X × List (Option X)
  next_fault [] = (none, [])
  next_fault (x ∷ xs) = (x, xs)

abbrev pub on_conn : (Conn → Conn) → World → World
on_conn f w = record w { conn = f w.conn }

abbrev pub log : Call → Conn → Conn
log c k = record k { trace = k.trace ++ c ∷ [] }

abbrev outcome : Option Error → Result (Unit {0})
outcome none = ok tt
outcome (some e) = err e

-- conn.SetReadDeadline(time.Now().Add(d))
unfoldable pub arm_read : ℤ → Io (Unit {0})
arm_read d w =
    let (fault, later) = next_fault w.conn.deadline_faults in
    (
      outcome fault,
      on_conn (λ k. record (log (set_read_deadline d) k) { deadline_faults = later }) w,
    )

-- conn.SetWriteDeadline(time.Now().Add(d))
unfoldable pub arm_write : ℤ → Io (Unit {0})
arm_write d w =
    let (fault, later) = next_fault w.conn.deadline_faults in
    (
      outcome fault,
      on_conn (λ k. record (log (set_write_deadline d) k) { deadline_faults = later }) w,
    )

-- conn.Close()
unfoldable pub close_conn : Io (Unit {0})
close_conn w = (outcome w.conn.close_fault, on_conn (log close) w)

abbrev pub sent : Option (ℕ × Error) → Bytes → Bytes
sent none bs = bs
sent (some (n, e)) bs = take n bs

abbrev sent_count : Option (ℕ × Error) → Bytes → Result ℕ
sent_count none bs = ok (length bs)
sent_count (some (n, e)) bs = err e

-- conn.Write(bs)
unfoldable pub write_bytes : Bytes → Io ℕ
write_bytes bs w =
    let (fault, later) = next_fault w.conn.write_faults in
    (
      sent_count fault bs,
      on_conn (λ k. record (log (write (sent fault bs)) k) { write_faults = later }) w,
    )

-- The error of `io.ReadFull` when `Read` failed after some bytes.
abbrev pub cut_short : Bytes → Error → Error
cut_short [] e = e
cut_short (x ∷ xs) eof = unexpected_eof
cut_short (x ∷ xs) e = e

-- The loop of `io.ReadFull`: the number of bytes still missing, and those that were read.
unfoldable pub read_loop : ℕ → Bytes → List Event → Result Bytes × List Event
read_loop zero acc es = (ok acc, es)
read_loop (suc k) acc [] = (err (cut_short acc eof), [])
read_loop (suc k) acc (fail e ∷ es) = (err (cut_short acc e), es)
read_loop (suc k) acc (arrive bs ∷ es) =
    let more = read_loop (suc k - length bs) (acc ++ bs) es in
    if ltb (length bs) (suc k)
    then more
    else (ok (acc ++ take (suc k) bs), arrive (drop (suc k) bs) ∷ es)

-- The calls of `Read` that the loop makes, each into what is left of the buffer.
unfoldable pub read_calls : ℕ → List Event → List Call
read_calls zero es = []
read_calls (suc k) [] = read (suc k) ∷ []
read_calls (suc k) (fail e ∷ es) = read (suc k) ∷ []
read_calls (suc k) (arrive bs ∷ es) =
    let more = read_calls (suc k - length bs) es in
    read (suc k) ∷ (if ltb (length bs) (suc k) then more else [])

-- io.ReadFull(conn, buf) with a buffer of `n` bytes
unfoldable pub read_full : ℕ → Io Bytes
unfolding read_loop read_calls
read_full n w =
    let (r, es) = read_loop n [] w.conn.incoming in
    (
      r,
      on_conn (λ k. record k { incoming = es; trace = k.trace ++ read_calls n w.conn.incoming }) w,
    )

-- `n` bytes of the source from position `at` on
unfoldable pub random_bytes : (ℕ → ℕ) → ℕ → ℕ → Bytes
random_bytes source at zero = []
random_bytes source at (suc n) = (source at % 256) ∷ random_bytes source (at + 1) n

-- rand.Read(b) with a buffer of `n` bytes
unfoldable pub rand_read : ℕ → Entropy → Result Bytes × Entropy
unfolding random_bytes
rand_read n e =
    let (fault, later) = next_fault e.faults in
    elim fault [
      | none ↦
          (ok (random_bytes e.source e.drawn n), record e { drawn = e.drawn + n; faults = later })
      | some x ↦ (err x, record e { faults = later })
    ]

module _ {A : Type 0} where
  abbrev pub on_entropy : (Entropy → Result A × Entropy) → Io A
  on_entropy f w = let (r, e) = f w.entropy in (r, record w { entropy = e })
