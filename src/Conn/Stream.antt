-- ===== src/Conn/Stream.antt =====
-- `io.ReadFull` depends on the bytes that come in, and not on how they are cut into reads.
use atxp.Common.{
  ℕ, zero, suc, ◌-◌, ◌≤◌, ◌<◌, ◌≡◌, refl, ap, ◌∙◌, sym, List, [], ◌∷◌, ◌++◌, length, take, drop,
  arith, append_assoc, append-nil, length-append,
}
use atxp.Errors.{Error, ok, err, eof}
use atxp.Wire.{Bytes}
use atxp.Conn.{Event, arrive, fail, cut_short, read_loop}

-- The bytes before the first failure, and the failure.
abbrev pub stream : List Event → Bytes
stream [] = []
stream (arrive bs ∷ es) = bs ++ stream es
stream (fail e ∷ es) = []

abbrev pub ending : List Event → Error
ending [] = eof
ending (arrive bs ∷ es) = ending es
ending (fail e ∷ es) = e

take-append_le : (n : ℕ) (xs ys : Bytes) → n ≤ length xs → take n (xs ++ ys) ≡ take n xs
take-append_le zero xs ys h = refl
take-append_le (suc n) [] ys h = absurd (omega arith)
take-append_le (suc n) (x ∷ xs) ys h = ap (λ zs. x ∷ zs) (take-append_le n xs ys (omega arith))

take-append_ge :
    (n : ℕ) (xs ys : Bytes) → length xs ≤ n → take n (xs ++ ys) ≡ xs ++ take (n - length xs) ys
take-append_ge n [] ys h = ap (λ k. take k ys) (omega arith)
take-append_ge zero (x ∷ xs) ys h = absurd (omega arith)
take-append_ge (suc n) (x ∷ xs) ys h =
    ap (λ zs. x ∷ zs)
      (take-append_ge n xs ys (omega arith) ∙ ap (λ k. xs ++ take k ys) (omega arith))

drop-append_le : (n : ℕ) (xs ys : Bytes) → n ≤ length xs → drop n (xs ++ ys) ≡ drop n xs ++ ys
drop-append_le zero xs ys h = refl
drop-append_le (suc n) [] ys h = absurd (omega arith)
drop-append_le (suc n) (x ∷ xs) ys h = drop-append_le n xs ys (omega arith)

drop-append_ge :
    (n : ℕ) (xs ys : Bytes) → length xs ≤ n → drop n (xs ++ ys) ≡ drop (n - length xs) ys
drop-append_ge n [] ys h = ap (λ k. drop k ys) (omega arith)
drop-append_ge zero (x ∷ xs) ys h = absurd (omega arith)
drop-append_ge (suc n) (x ∷ xs) ys h =
    drop-append_ge n xs ys (omega arith) ∙ ap (λ k. drop k ys) (omega arith)

-- Enough bytes come: exactly the missing ones are taken.
pub read_loop_enough :
    (n : ℕ) (acc : Bytes) (es : List Event)
    → n ≤ length (stream es)
    → ((read_loop n acc es).0 ≡ ok (acc ++ take n (stream es)))
      × (stream (read_loop n acc es).1 ≡ drop n (stream es))
      × (ending (read_loop n acc es).1 ≡ ending es)
unfolding read_loop
read_loop_enough zero acc es h = (ap ok (sym (append-nil acc)), refl, refl)
read_loop_enough (suc k) acc [] h = absurd (omega arith)
read_loop_enough (suc k) acc (fail e ∷ es) h = absurd (omega arith)
read_loop_enough (suc k) acc (arrive bs ∷ es) h = ground (
  arith,
  length-append bs (stream es),
  read_loop_enough (suc k - length bs) (acc ++ bs) es,
  append_assoc acc bs (take (suc k - length bs) (stream es)),
  take-append_ge (suc k) bs (stream es),
  drop-append_ge (suc k) bs (stream es),
  take-append_le (suc k) bs (stream es),
  drop-append_le (suc k) bs (stream es),
)

-- Fewer bytes come: the read fails with the error that ended the stream.
pub read_loop_short :
    (n : ℕ) (acc : Bytes) (es : List Event)
    → length (stream es) < n
    → (read_loop n acc es).0 ≡ err (cut_short (acc ++ stream es) (ending es))
unfolding read_loop
read_loop_short zero acc es h = absurd (omega arith)
read_loop_short (suc k) acc [] h = rw append-nil
read_loop_short (suc k) acc (fail e ∷ es) h = rw append-nil
read_loop_short (suc k) acc (arrive bs ∷ es) h = ground (
  arith,
  length-append bs (stream es),
  read_loop_short (suc k - length bs) (acc ++ bs) es,
  append_assoc acc bs (stream es),
)
