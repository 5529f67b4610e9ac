-- ===== src/Frame/Output.antt =====
-- What a peer puts out on its connection: frames, each under a nonce of its own.
use atxp.Common.{
  ◌%◌, ◌^◌, ℕ, ◌+◌, ◌≤◌, ◌≡◌, refl, sym, ap, subst, ◌∙◌, ◌⊎◌, inl, inr, true, Option, none, some,
  List, [], ◌∷◌, ◌++◌, take, length, arith, append_assoc, append-nil, take_all, Option-cases,
  Bool-cases,
}
use atxp.Common.Int.{ℤ, pos, le_int}
use atxp.Errors.{Error}
use atxp.Wire.{Bytes, append_uint32}
use atxp.Conn.{
  World, Call, set_read_deadline, set_write_deadline, read, write, close, sent, next_fault,
  arm_write, write_bytes,
}
use atxp.Crypto.{Crypto, nonce_size, gcm_cipher, seal_gcm}
use atxp.Crypto.Nonces.{sealed_at, seal_gcm_cases}
use atxp.Frame.{frame_of, write_frame, write_sealed, default_io_timeout}

-- What the calls write.
abbrev pub written : List Call → List Bytes
written [] = []
written (set_read_deadline d ∷ cs) = written cs
written (set_write_deadline d ∷ cs) = written cs
written (read n ∷ cs) = written cs
written (write bs ∷ cs) = bs ∷ written cs
written (close ∷ cs) = written cs

pub written-append : (xs ys : List Call) → written (xs ++ ys) ≡ written xs ++ written ys
written-append [] ys = refl
written-append (set_read_deadline d ∷ xs) ys = written-append xs ys
written-append (set_write_deadline d ∷ xs) ys = written-append xs ys
written-append (read n ∷ xs) ys = written-append xs ys
written-append (write bs ∷ xs) ys = ap (λ t. bs ∷ t) (written-append xs ys)
written-append (close ∷ xs) ys = written-append xs ys

pub sent-take : (f : Option (ℕ × Error)) (bs : Bytes) → (n : ℕ) × (sent f bs ≡ take n bs)
sent-take none bs = (length bs, sym (take_all bs))
sent-take (some (n, e)) bs = (n, refl)

-- The frame of docs/protocol.md: the length in 4 bytes, and what was sealed.
abbrev pub framed : Bytes → Bytes
framed sealed = append_uint32 [] (length sealed % 2 ^ 32) ++ sealed

module _ (cr : Crypto) (a : cr.Aead) (source : ℕ → ℕ) (cap : ℤ) where
  -- Plaintexts, and what is written for them, while the random source goes from one position to
  -- another. For a plaintext nothing is written, or its frame, whole or cut; the frame fits the cap,
  -- and its nonce is drawn behind those of all frames before.
  pub data Frames : ℕ → List Bytes → List Bytes → ℕ → Type 0 where
    no_more : {from to : ℕ} → from ≤ to → Frames from [] [] to
    unsent :
        {from to : ℕ} {plaintexts frames : List Bytes} (plaintext : Bytes)
        → Frames from plaintexts frames to
        → Frames from (plaintext ∷ plaintexts) frames to
    put :
        {from to : ℕ} {plaintexts frames : List Bytes} (plaintext : Bytes) (at n : ℕ)
        → from ≤ at
        → le_int (pos (length (sealed_at cr a source at plaintext))) cap ≡ true
        → Frames (at + nonce_size) plaintexts frames to
        → Frames from
            (plaintext ∷ plaintexts)
            (take n (framed (sealed_at cr a source at plaintext)) ∷ frames)
            to

  Frames-lower :
      (from from' to : ℕ) (ps bs : List Bytes)
      → from ≤ from'
      → Frames from' ps bs to
      → Frames from ps bs to
  Frames-lower from from' to ps bs le (no_more h) = no_more (omega arith)
  Frames-lower from from' to ps bs le (unsent {plaintexts = qs} p f) =
      unsent p (Frames-lower from from' to qs bs le f)
  Frames-lower from from' to ps bs le (put p at n h fits f) = put p at n (omega arith) fits f

  pub Frames-append :
      (from mid to : ℕ) (ps qs bs cs : List Bytes)
      → Frames from ps bs mid
      → Frames mid qs cs to
      → Frames from (ps ++ qs) (bs ++ cs) to
  Frames-append from mid to ps qs bs cs (no_more h) g = Frames-lower from mid to qs cs h g
  Frames-append from mid to ps qs bs cs (unsent {plaintexts = ps'} p f) g =
      unsent p (Frames-append from mid to ps' qs bs cs f g)
  Frames-append from mid to ps qs bs cs (put {plaintexts = ps'} {frames = bs'} p at n h fits f) g =
      put p at n h fits (Frames-append (at + nonce_size) mid to ps' qs bs' cs f g)

-- The same frames, seen from an equal source and position.
pub Frames-subst :
    (cr : Crypto) (a : cr.Aead) (cap : ℤ) (h h' : ℕ → ℕ) (from from' to : ℕ) (ps bs : List Bytes)
    → h ≡ h'
    → from ≡ from'
    → Frames cr a h cap from ps bs to
    → Frames cr a h' cap from' ps bs to
Frames-subst cr a cap h h' from from' to ps bs e f frames =
    subst (λ g. Frames cr a g cap from' ps bs to) e
      (subst (λ n. Frames cr a h cap n ps bs to) f frames)

-- Between two worlds the plaintexts are those that were to be sent; `Emits` has what was written.
module _ (cr : Crypto) (a : cr.Aead) (cap : ℤ) where
  abbrev pub Emits : World → List Bytes → World → Type 0
  Emits w plaintexts w' =
      (calls : List Call) × (w'.conn.trace ≡ w.conn.trace ++ calls)
      × (w'.entropy.source ≡ w.entropy.source)
      × Frames cr a w.entropy.source cap w.entropy.drawn plaintexts (written calls) w'.entropy.drawn

  pub Emits-none :
      (w w' : World) (calls : List Call)
      → w'.conn.trace ≡ w.conn.trace ++ calls
      → written calls ≡ []
      → w'.entropy ≡ w.entropy
      → Emits w [] w'
  Emits-none w w' calls t silent e =
      (calls, t, ap (λ r. r.source) e, rw silent (no_more (omega (arith, ap (λ r. r.drawn) e))))

  pub Emits-trans :
      (u v w : World) (ps qs : List Bytes) → Emits u ps v → Emits v qs w → Emits u (ps ++ qs) w
  Emits-trans u v w ps qs (xs, e, s, f) (ys, e', s', g) = (
    xs ++ ys,
    e' ∙ ap (λ t. t ++ ys) e ∙ append_assoc u.conn.trace xs ys,
    s' ∙ s,
    rw (written-append xs ys) (
        Frames-append cr a u.entropy.source cap u.entropy.drawn v.entropy.drawn w.entropy.drawn ps
          qs (written xs) (written ys) f
          (subst (λ h. Frames cr a h cap v.entropy.drawn qs (written ys) w.entropy.drawn) s g)),
  )

-- What `writeFrame` writes of sealed bytes: nothing, or a frame that fits the cap, whole or cut.
write_sealed_cases :
    (sealed : Bytes) (cap : ℤ) (w : World)
    → (calls : List Call) × ((write_sealed sealed cap w).1.conn.trace ≡ w.conn.trace ++ calls)
      × ((write_sealed sealed cap w).1.entropy ≡ w.entropy)
      × ((written calls ≡ [])
          ⊎ ((n : ℕ) × (written calls ≡ take n (framed sealed) ∷ [])
              × (le_int (pos (length sealed)) cap ≡ true)))
unfolding frame_of write_sealed arm_write write_bytes
write_sealed_cases sealed cap w = elim (Bool-cases (le_int (pos (length sealed)) cap)) [
  | inr large ↦ rw large ([], sym (append-nil w.conn.trace), refl, inl refl)
  | inl fits ↦
      let arm = set_write_deadline default_io_timeout in
      elim (Option-cases (next_fault w.conn.deadline_faults).0) [
        | inr (x, fails) ↦ rw (fits, fails) (arm ∷ [], refl, refl, inl refl)
        | inl works ↦
            let (n, e) = sent-take (next_fault w.conn.write_faults).0 (frame_of sealed) in
            rw (fits, works)
              (
                arm ∷ write (sent (next_fault w.conn.write_faults).0 (frame_of sealed)) ∷ [],
                append_assoc w.conn.trace (arm ∷ []) _,
                refl,
                inr (n, ap (λ t. t ∷ []) e, refl),
              )
      ]
]

module _ (cr : Crypto) (a : cr.Aead) (cap : ℤ) where
  -- One frame.
  pub write_frame-Emits :
      (plaintext : Bytes) (w : World)
      → Emits cr a cap w (plaintext ∷ []) (write_frame (gcm_cipher cr a) plaintext cap w).1
  unfolding write_frame gcm_cipher
  write_frame-Emits plaintext w =
      let e = w.entropy in
      let e1 = (seal_gcm cr a plaintext e).1 in
      let w1 = record w { entropy = e1 } in
      elim (seal_gcm_cases cr a plaintext e) [
        | inr (x, fails, stays, keeps) ↦ rw fails (
          [],
          sym (append-nil w.conn.trace),
          keeps,
          unsent plaintext (no_more (omega (arith, stays))),
        )
        | inl (done, moves, keeps) ↦
            let sealed = sealed_at cr a e.source e.drawn plaintext in
            let (calls, t, same, wrote) = write_sealed_cases sealed cap w1 in
            let ends : e.drawn + nonce_size ≤ (write_sealed sealed cap w1).1.entropy.drawn =
              omega (arith, moves, ap (λ r. r.drawn) same) in
            rw done (
              calls,
              t,
              ap (λ r. r.source) same ∙ keeps,
              elim wrote [
                | inl nothing ↦ rw nothing (unsent plaintext (no_more (omega (arith, ends))))
                | inr (n, frame, fits) ↦
                    rw frame (put plaintext e.drawn n (omega arith) fits (no_more ends))
              ],
            )
      ]
