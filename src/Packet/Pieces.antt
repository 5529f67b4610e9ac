-- ===== src/Packet/Pieces.antt =====
-- How `Deserialize` takes a packet of plain parts to its pieces.
use atxp.Common.{
  ℕ, ◌+◌, ◌≡◌, refl, ap, sym, ◌∙◌, false, none, some, [], ◌∷◌, ◌++◌, length, take, ◌==◌, ==_iff,
  arith, append_assoc, length-append, take-append,
}
use mathlib.Core.Option
use atxp.Wire.{Bytes}
use atxp.Message.{Box, Message}
use atxp.Packet.{
  tabs, auth_mark, newlines, has_prefix, index, split_colons, found, sliced, fill, deserialize,
}
use atxp.Packet.Search.{index-append, index-has_prefix, index-newlines_append}
use atxp.Packet.Parts.{
  packet_of, auth_word, HasNoTab, HasNoNewline, EndsFirst, index-tabs, index-auth_mark,
  sliced-append,
}

-- The packet up to the newlines.
abbrev pub front_of : Bytes → Bytes → Bytes → Bytes
front_of t d a = (t ++ (tabs ++ (d ++ auth_mark))) ++ a

packet_of-front_of :
    (t d a : Bytes) → packet_of t d a ≡ (t ++ (tabs ++ (d ++ auth_mark))) ++ (a ++ newlines)
packet_of-front_of t d a = sym (
    append_assoc t (tabs ++ (d ++ auth_mark)) (a ++ newlines)
    ∙ ap (λ s. t ++ (tabs ++ s)) (append_assoc d auth_mark (a ++ newlines)))

pub packet_of-newlines : (t d a : Bytes) → packet_of t d a ≡ front_of t d a ++ newlines
packet_of-newlines t d a =
    packet_of-front_of t d a ∙ sym (append_assoc (t ++ (tabs ++ (d ++ auth_mark))) a newlines)

pub HasNoNewline-EndsFirst : (s : Bytes) → HasNoNewline s → EndsFirst s
HasNoNewline-EndsFirst s h =
    index-append s newlines 10 (10 ∷ []) h
    ∙ ap (Option.map (λ i. length s + i)) (index-has_prefix newlines newlines refl)
    ∙ ap some (omega arith)

index-newlines :
    (t d a : Bytes)
    → HasNoNewline t
    → index d newlines ≡ none
    → HasNoNewline a
    → index (packet_of t d a) newlines ≡ some (length (front_of t d a))
index-newlines t d a ht hd ha =
    let pass = λ (xs s : Bytes) (i : ℕ) (h : HasNoNewline xs) (e : index s newlines ≡ some i).
      index-append xs s 10 (10 ∷ []) h ∙ ap (Option.map (λ j. length xs + j)) e in
    let mark : HasNoNewline auth_mark = search arith depth 40 in
    let two : HasNoNewline tabs = search arith depth 40 in
    let e1 = HasNoNewline-EndsFirst a ha in
    let s = auth_mark ++ (a ++ newlines) in
    let e2 = pass auth_mark (a ++ newlines) (length a) mark e1 in
    let e3 =
      index-newlines_append d (9 ∷ (auth_word ++ (a ++ newlines))) 9 (omega arith) hd
      ∙ ap (Option.map (λ j. length d + j)) e2 in
    let e4 = pass tabs (d ++ s) (length d + (7 + length a)) two e3 in
    pass t (tabs ++ (d ++ s)) (2 + (length d + (7 + length a))) ht e4
    ∙ ap some (
        omega (
          arith,
          length-append (t ++ (tabs ++ (d ++ auth_mark))) a,
          length-append t (tabs ++ (d ++ auth_mark)),
          length-append d auth_mark,
        ))

pub front_of-EndsFirst :
    (t d a : Bytes)
    → HasNoNewline t
    → index d newlines ≡ none
    → HasNoNewline a
    → EndsFirst (front_of t d a)
front_of-EndsFirst t d a ht hd ha =
    ap (λ s. index s newlines) (sym (packet_of-newlines t d a)) ∙ index-newlines t d a ht hd ha

module _ {O : Type 0} ⦃box : Box O⦄ where
  -- A packet of plain parts is taken to its pieces.
  pub deserialize-packet_of :
      (t d a : Bytes) (old : Message O)
      → HasNoTab t
      → index d auth_mark ≡ none
      → has_prefix d auth_word ≡ false
      → has_prefix d (9 ∷ auth_word) ≡ false
      → HasNoNewline t
      → index d newlines ≡ none
      → HasNoNewline a
      → deserialize (packet_of t d a) (some old) ≡ fill t d (split_colons [] false a) old
  unfolding deserialize
  deserialize-packet_of t d a old tt0 dt word word' tn dn an =
      let buffer = packet_of t d a in
      let some_bytes : (length buffer == 0) ≡ false = ground (
        arith,
        length-append t (tabs ++ (d ++ (auth_mark ++ (a ++ newlines)))),
        ==_iff (length buffer) 0,
      ) in
      let e1 = index-tabs t (d ++ (auth_mark ++ (a ++ newlines))) tt0 in
      let e2 = index-auth_mark t d (a ++ newlines) tt0 dt word word' in
      let e3 = index-newlines t d a tn dn an in
      let last = λ (data_str : Bytes). λ (auth_str : Bytes).
        fill (take (length t) buffer) data_str (split_colons [] false auth_str) old in
      rw (some_bytes, e1, e2, e3)
        (sliced-append (length t + 2) (length t + (2 + length d)) buffer (t ++ tabs) d
            (auth_mark ++ (a ++ newlines))
            (λ data_str.
              found (some (length (front_of t d a))) (λ tail_idx.
                sliced (length t + (2 + length d) + 7) tail_idx buffer (last data_str)))
            (sym (length-append t tabs)) (omega (arith, length-append t tabs))
            (sym (append_assoc t tabs (d ++ (auth_mark ++ (a ++ newlines)))))
          ∙ sliced-append (length t + (2 + length d) + 7) (length (front_of t d a)) buffer
              (t ++ (tabs ++ (d ++ auth_mark))) a newlines (last d)
              (omega (arith, length-append t (tabs ++ (d ++ auth_mark)), length-append d auth_mark))
              (length-append (t ++ (tabs ++ (d ++ auth_mark))) a) (packet_of-front_of t d a)
          ∙ ap (λ s. fill s d (split_colons [] false a) old)
              (take-append t (tabs ++ (d ++ (auth_mark ++ (a ++ newlines))))))
