-- ===== src/Packet/Laws.antt =====
-- What Deserialize makes of the packets of Serialize.
use atxp.Common.{
  ◌+◌, ◌≡◌, ◌≢◌, refl, ap, sym, ◌∙◌, subst, Bool, true, false, none, some, List, [], ◌∷◌, ◌++◌,
  ◌&&◌, ◌||◌, not, length, leb, ◌==◌, ==_iff, All-append, arith, append-nil, length-append,
  if◌then◌else◌, Bool-cases, inl, inr,
}
use mathlib.Core.Option
use atxp.Common.Int.{negsuc, eq_int}
use atxp.Errors.{ok}
use atxp.Wire.{Bytes}
use atxp.Message.{Box, Message, url, document, notification}
use atxp.Packet.{
  tabs, auth_mark, newlines, has_prefix, index, split_colons, decoded, panicked, type_to_string,
  filled, name_part, serialize, fill, deserialize,
}
use atxp.Packet.Search.{
  index-append, index-has_prefix, split_colons-append, split_colons-end, IsPart,
}
use atxp.Packet.Names.{string_to_type-type_to_string, type_to_string-IsClean, named-string_to_type}
use atxp.Packet.Pieces.{front_of, packet_of-newlines, front_of-EndsFirst, deserialize-packet_of}
use atxp.Packet.Parts.{packet_of, auth_word, HasNoNewline, EndsFirst, index-tabs}

has_prefix-append_true : (d w r : Bytes) → has_prefix d w ≡ true → has_prefix (d ++ r) w ≡ true
has_prefix-append_true d [] r h = refl
has_prefix-append_true [] (p ∷ w) r h = cc
has_prefix-append_true (x ∷ d) (p ∷ w) r h = ground (arith, has_prefix-append_true d w r)

module _ {O : Type 0} ⦃box : Box O⦄ where
  -- The parts of a message can be told apart in a packet: the data has no two newlines side by side
  -- and no "\t\tAuth:", and does not begin with "Auth:" or "\tAuth:"; the credentials and the filename
  -- have no two colons side by side, no colon at the end, and no newline.
  pub record IsPlain (m : Message O) : Type 0 where
    pub no_newlines : index (box.get (filled m).body) newlines ≡ none
    pub no_mark : index (box.get (filled m).body) auth_mark ≡ none
    pub no_word : has_prefix (box.get (filled m).body) auth_word ≡ false
    pub no_tab_word : has_prefix (box.get (filled m).body) (9 ∷ auth_word) ≡ false
    pub username : IsPart m.auth.username × HasNoNewline m.auth.username
    pub password : IsPart m.auth.password × HasNoNewline m.auth.password
    pub filename : IsPart m.filename × HasNoNewline m.filename

  pub serialize-packet_of :
      (m : Message O)
      → serialize (some m)
        ≡ ok (
          packet_of
              (type_to_string m.type)
              (box.get (filled m).body)
              (m.auth.username ++ b':' ∷ b':' ∷ (m.auth.password ++ name_part m)),
          filled m,
        )
  unfolding serialize
  serialize-packet_of m = elim (Bool-cases (box.is_empty m.body)) [
    | inl e ↦ rw e refl
    | inr e ↦ rw e refl
  ]

  -- The parts of the credentials, as `Deserialize` splits them.
  abbrev parts_of : Message O → List Bytes
  parts_of m =
      m.auth.username
      ∷ m.auth.password
      ∷ (if eq_int m.type document && not (length m.filename == 0) then m.filename ∷ [] else [])

  split_colons-parts_of :
      (m : Message O)
      → IsPlain m
      → split_colons [] false (m.auth.username ++ b':' ∷ b':' ∷ (m.auth.password ++ name_part m))
        ≡ parts_of m
  split_colons-parts_of m h =
      split_colons-append [] m.auth.username (m.auth.password ++ name_part m) h.username.0
      ∙ ap (λ t. m.auth.username ∷ t)
          (by_name (eq_int m.type document && not (length m.filename == 0)))
    where
      by_name :
          (b : Bool)
          → split_colons [] false (m.auth.password ++ (if b then b':' ∷ b':' ∷ m.filename else []))
            ≡ m.auth.password ∷ (if b then m.filename ∷ [] else [])
      by_name true =
          split_colons-append [] m.auth.password m.filename h.password.0
          ∙ ap (λ t. m.auth.password ∷ t) (split_colons-end [] m.filename h.filename.0)
      by_name false =
          ap (split_colons [] false) (append-nil m.auth.password)
          ∙ split_colons-end [] m.auth.password h.password.0

  credentials-HasNoNewline :
      (m : Message O)
      → IsPlain m
      → HasNoNewline (m.auth.username ++ b':' ∷ b':' ∷ (m.auth.password ++ name_part m))
  credentials-HasNoNewline m h =
      All-append (λ x. x ≢ 10) m.auth.username _ h.username.1
        (
          (omega arith),
          (
            (omega arith),
            All-append (λ x. x ≢ 10) m.auth.password (name_part m) h.password.1
                (by_name (eq_int m.type document && not (length m.filename == 0))),
          ),
        )
    where
      by_name : (b : Bool) → HasNoNewline (if b then b':' ∷ b':' ∷ m.filename else [])
      by_name true = ((omega arith), ((omega arith), h.filename.1))
      by_name false = tt

  -- What `Deserialize` leaves of a message in `old`: a type without a name becomes -1, and only a
  -- document with a filename sets the filename.
  abbrev pub delivered : Message O → Message O → Message O
  delivered m old = record old {
    type =
        if eq_int m.type url || eq_int m.type document || eq_int m.type notification
        then m.type
        else negsuc 0;
    body = box.new_some (box.get (filled m).body);
    auth = m.auth;
    filename =
        if eq_int m.type document && not (length m.filename == 0) then m.filename else old.filename;
  }

  fill-parts_of :
      (m old : Message O)
      → fill (type_to_string m.type) (box.get (filled m).body) (parts_of m) old
        ≡ decoded (delivered m old)
  unfolding fill
  fill-parts_of m old =
      rw (named-string_to_type m.type m.filename old.filename, string_to_type-type_to_string m.type)
        refl

  -- Deserialize after Serialize, for a message of plain parts (`IsPlain`): it fills the message
  -- with the data and the credentials, the type if it is one of the three and else -1, and the
  -- filename of a document that has one; another filename is left as it was.
  pub deserialize-serialize :
      (m m' old : Message O) (packet : Bytes)
      → IsPlain m
      → serialize (some m) ≡ ok (packet, m')
      → deserialize packet (some old) ≡ decoded (delivered m old)
  deserialize-serialize m m' old packet h e =
      let t = type_to_string m.type in
      let d = box.get (filled m).body in
      let a = m.auth.username ++ b':' ∷ b':' ∷ (m.auth.password ++ name_part m) in
      let same : packet_of t d a ≡ packet = cc (sym (serialize-packet_of m) ∙ e) in
      let (clean, clean') = type_to_string-IsClean m.type in
      subst (λ p. deserialize p (some old) ≡ decoded (delivered m old)) same
        (deserialize-packet_of t d a old clean h.no_mark h.no_word h.no_tab_word clean'
            h.no_newlines (credentials-HasNoNewline m h)
          ∙ ap (λ ps. fill t d ps old) (split_colons-parts_of m h)
          ∙ fill-parts_of m old)

  -- Deserialize panics on the packet of every message whose data begins with "Auth:".
  pub deserialize_panics :
      (m m' old : Message O) (packet : Bytes)
      → has_prefix (box.get (filled m).body) auth_word ≡ true
      → serialize (some m) ≡ ok (packet, m')
      → deserialize packet (some old) ≡ panicked
  unfolding deserialize
  deserialize_panics m m' old packet h e =
      let t = type_to_string m.type in
      let d = box.get (filled m).body in
      let a = m.auth.username ++ b':' ∷ b':' ∷ (m.auth.password ++ name_part m) in
      let same : packet_of t d a ≡ packet = cc (sym (serialize-packet_of m) ∙ e) in
      let r = auth_mark ++ (a ++ newlines) in
      let clean = (type_to_string-IsClean m.type).0 in
      let e1 : index (packet_of t d a) tabs ≡ some (length t) = index-tabs t (d ++ r) clean in
      let e2 : index (packet_of t d a) auth_mark ≡ some (length t) =
        index-append t (tabs ++ (d ++ r)) 9 (9 ∷ auth_word) clean
        ∙ ap (Option.map (λ i. length t + i))
            (index-has_prefix (tabs ++ (d ++ r)) auth_mark (has_prefix-append_true d auth_word r h))
        ∙ ap some (omega arith) in
      let some_bytes : (length (packet_of t d a) == 0) ≡ false =
        ground (arith, length-append t (tabs ++ (d ++ r)), ==_iff (length (packet_of t d a)) 0) in
      let outside : leb (length t + 2) (length t) ≡ false = ground arith in
      subst (λ p. deserialize p (some old) ≡ panicked) same (rw (some_bytes, e1, e2, outside) refl)

  -- The packet of a message of plain parts ends at its first two newlines side by side.
  pub serialize-newlines :
      (m m' : Message O) (packet : Bytes)
      → IsPlain m
      → serialize (some m) ≡ ok (packet, m')
      → (front : Bytes) × EndsFirst front × (packet ≡ front ++ newlines)
  serialize-newlines m m' packet h e =
      let t = type_to_string m.type in
      let d = box.get (filled m).body in
      let a = m.auth.username ++ b':' ∷ b':' ∷ (m.auth.password ++ name_part m) in
      let same : packet_of t d a ≡ packet = cc (sym (serialize-packet_of m) ∙ e) in
      (
        front_of t d a,
        front_of-EndsFirst t d a (type_to_string-IsClean m.type).1 h.no_newlines
            (credentials-HasNoNewline m h),
        sym same ∙ packet_of-newlines t d a,
      )
