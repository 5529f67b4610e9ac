-- ===== src/Packet/Parts.antt =====
-- Where the marks of a packet of plain parts are found, and the slices between them.
use atxp.Common.{
  ℕ, suc, ◌+◌, ◌-◌, ◌≡◌, ◌≢◌, refl, ap, ◌∙◌, true, false, none, some, [], ◌∷◌, ◌++◌, length, take,
  drop, leb, ==_iff, All, arith,
}
use mathlib.Core.Option
use atxp.Wire.{Bytes}
use atxp.Packet.{tabs, auth_mark, newlines, has_prefix, index, Decoded, sliced}
use atxp.Packet.Search.{
  index-cons, index-has_prefix, index-append, index-auth_mark_append, take-drop-append,
}

-- A packet of a type, data and credentials.
abbrev pub packet_of : Bytes → Bytes → Bytes → Bytes
packet_of t d a = t ++ (tabs ++ (d ++ (auth_mark ++ (a ++ newlines))))

-- "Auth:"
abbrev pub auth_word : Bytes
auth_word = b'A' ∷ b'u' ∷ b't' ∷ b'h' ∷ b':' ∷ []

-- No tab, and no newline.
abbrev pub HasNoTab : Bytes → Type 0
HasNoTab bs = All (λ x. x ≢ 9) bs

abbrev pub HasNoNewline : Bytes → Type 0
HasNoNewline bs = All (λ x. x ≢ 10) bs

-- The first two newlines side by side are those at the end.
abbrev pub EndsFirst : Bytes → Type 0
EndsFirst front = index (front ++ newlines) newlines ≡ some (length front)

-- A word without tabs that does not begin a text does not begin it with a tab and more behind it.
has_prefix-append :
    (d w r : Bytes) → HasNoTab w → has_prefix d w ≡ false → has_prefix (d ++ 9 ∷ r) w ≡ false
has_prefix-append d [] r n h = h
has_prefix-append [] (p ∷ w) r (other, n) h = ground (arith, ==_iff 9 p)
has_prefix-append (x ∷ d) (p ∷ w) r (other, n) h = ground (arith, has_prefix-append d w r n)

pub index-tabs : (t r : Bytes) → HasNoTab t → index (t ++ (tabs ++ r)) tabs ≡ some (length t)
index-tabs t r h =
    index-append t (tabs ++ r) 9 (9 ∷ []) h
    ∙ ap (Option.map (λ i. length t + i)) (index-has_prefix (tabs ++ r) tabs refl)
    ∙ ap some (omega arith)

-- The second of the two tabs behind the type does not begin the mark.
tab_has_prefix :
    (d r : Bytes)
    → has_prefix d (9 ∷ auth_word) ≡ false
    → has_prefix (9 ∷ (d ++ (auth_mark ++ r))) auth_mark ≡ false
tab_has_prefix [] r h = refl
tab_has_prefix (x ∷ d) r h =
    let word : HasNoTab auth_word = search arith depth 40 in
    ground (arith, has_prefix-append d auth_word (9 ∷ (auth_word ++ r)) word)

pub index-auth_mark :
    (t d r : Bytes)
    → HasNoTab t
    → index d auth_mark ≡ none
    → has_prefix d auth_word ≡ false
    → has_prefix d (9 ∷ auth_word) ≡ false
    → index (t ++ (tabs ++ (d ++ (auth_mark ++ r)))) auth_mark ≡ some (length t + (2 + length d))
index-auth_mark t d r ht hd h h' =
    let s = d ++ (auth_mark ++ r) in
    let sub = 9 ∷ auth_word in
    let e2 : index (9 ∷ s) auth_mark ≡ some (suc (length d)) =
      index-cons 9 s auth_mark (tab_has_prefix d r h')
      ∙ ap (Option.map suc) (index-auth_mark_append d r hd) in
    let e3 : index (tabs ++ s) auth_mark ≡ some (suc (suc (length d))) =
      index-cons 9 (9 ∷ s) auth_mark
        (has_prefix-append d auth_word (9 ∷ (auth_word ++ r)) (ground arith) h)
      ∙ ap (Option.map suc) e2 in
    index-append t (tabs ++ s) 9 sub ht
    ∙ ap (Option.map (λ i. length t + i)) e3
    ∙ ap some (omega arith)

module _ {A : Type 0} where
  -- A slice between two lengths is the part between them.
  pub sliced-append :
      (lo hi : ℕ) (s xs ys zs : Bytes) (f : Bytes → Decoded A)
      → lo ≡ length xs
      → hi ≡ length xs + length ys
      → s ≡ xs ++ (ys ++ zs)
      → sliced lo hi s f ≡ f ys
  sliced-append lo hi s xs ys zs f hl hh hs =
      let part : take (hi - lo) (drop lo s) ≡ ys =
        rw (hs, hl, hh)
          (ap (λ n. take n (drop (length xs) (xs ++ (ys ++ zs)))) (omega arith)
            ∙ take-drop-append xs ys zs) in
      let inside : leb lo hi ≡ true = ground arith in rw (inside, part) refl
