-- ===== src/Transport/Packets.antt =====
-- `Receive`, called again and again, cuts a stream into its packets.
use atxp.Common.{
  ℕ, ◌≡◌, ◌≢◌, refl, sym, subst, Bool, true, false, none, some, List, [], ◌∷◌, ◌++◌, ◌&&◌, not,
  length, ◌==◌, if◌then◌else◌, ◌⊎◌, inl, inr, arith, length-append, Bool-cases, Option-cases,
}
use atxp.Errors.{
  Error, new_error, sentinel, eof, unexpected_eof, other, wrap, wrap_both, Result, ok, err,
}
use atxp.Wire.{Bytes}
use atxp.Conn.{Event, arrive, fail}
use atxp.Conn.Stream.{stream, ending}
use atxp.Message.{Box, Message}
use atxp.Packet.{tabs, auth_mark, decoded, deserialize, newlines, index}
use atxp.Transport.{ends_packet, scan, read_failed, receive_loop}

abbrev pub is_eof : Error → Bool
is_eof eof = true
is_eof unexpected_eof = false
is_eof (sentinel s) = false
is_eof (new_error s) = false
is_eof (other n) = false
is_eof (wrap s e) = false
is_eof (wrap_both s e f) = false

-- The packets of a stream, behind the bytes `built` of the first one. What is left at the end is a
-- packet too, if the stream ends properly.
unfoldable pub packets_from : Bool → Bytes → Bytes → List Bytes
packets_from proper built [] = if proper && not (length built == 0) then built ∷ [] else []
packets_from proper built (x ∷ s) =
    let more = packets_from proper (built ++ x ∷ []) s in
    let rest = packets_from proper [] s in
    if ends_packet (built ++ x ∷ []) then (built ++ x ∷ []) ∷ rest else more

abbrev pub packets_of : List Event → List Bytes
packets_of es = packets_from (is_eof (ending es)) [] (stream es)

-- The text has no two newlines side by side.
abbrev pub Unended : Bytes → Type 0
Unended s = index s newlines ≡ none

ends_packet-Unended :
    (built : Bytes) (x : ℕ)
    → Unended built
    → ends_packet (built ++ x ∷ []) ≡ false
    → Unended (built ++ x ∷ [])
unfolding index
ends_packet-Unended [] x u h = ground arith
ends_packet-Unended (b ∷ []) x u h = ground (arith, ends_packet-Unended [] x)
ends_packet-Unended (b ∷ c ∷ built) x u h = ground (arith, ends_packet-Unended (c ∷ built) x)

-- What a scan has come to, in a stream of the packets `ps` that goes on with `more`.
abbrev Cuts : Bool → List Bytes → Bytes → (Bytes × Bytes) ⊎ Bytes → Type 0
Cuts proper ps more (inl (packet, rest)) =
    (length packet ≢ 0) × (ps ≡ packet ∷ packets_from proper [] (rest ++ more))
Cuts proper ps more (inr built) = (ps ≡ packets_from proper built more) × Unended built

pub packets_from_ended :
    (proper : Bool) (built s : Bytes) (x : ℕ)
    → ends_packet (built ++ x ∷ []) ≡ true
    → packets_from proper built (x ∷ s) ≡ (built ++ x ∷ []) ∷ packets_from proper [] s
unfolding packets_from
packets_from_ended proper built s x h = rw h refl

pub packets_from_open :
    (proper : Bool) (built s : Bytes) (x : ℕ)
    → ends_packet (built ++ x ∷ []) ≡ false
    → packets_from proper built (x ∷ s) ≡ packets_from proper (built ++ x ∷ []) s
unfolding packets_from
packets_from_open proper built s x h = rw h refl

scan-Cuts :
    (proper : Bool) (built bs more : Bytes)
    → Unended built
    → Cuts proper (packets_from proper built (bs ++ more)) more (scan built bs)
unfolding scan
scan-Cuts proper built [] more u = (refl, u)
scan-Cuts proper built (x ∷ bs) more u = elim (Bool-cases (ends_packet (built ++ x ∷ []))) [
  | inl ended ↦ rw ended (
    λ none_built. absurd (omega (arith, length-append built (x ∷ []), none_built)),
    packets_from_ended proper built (bs ++ more) x ended,
  )
  | inr not_yet ↦ rw not_yet (
      subst (λ ps. Cuts proper ps more (scan (built ++ x ∷ []) bs))
        (sym (packets_from_open proper built (bs ++ more) x not_yet))
        (scan-Cuts proper (built ++ x ∷ []) bs more (ends_packet-Unended built x u not_yet)))
]

-- What `Receive` returns is the first packet, or nothing if there is none; the last packet may be the
-- rest of a stream that ends without newlines.
abbrev pub Takes : List Bytes → Result Bytes → List Event → Type 0
Takes ps (err e) es = ps ≡ []
Takes ps (ok []) es = ps ≡ []
Takes ps (ok (x ∷ raw)) es =
    (ps ≡ (x ∷ raw) ∷ packets_of es) ⊎ ((ps ≡ (x ∷ raw) ∷ []) × Unended (x ∷ raw))

read_failed-Takes :
    (e : Error) (built : Bytes) (es : List Event)
    → Unended built
    → Takes (packets_from (is_eof e) built []) (read_failed built e) es
unfolding packets_from
read_failed-Takes eof [] es u = refl
read_failed-Takes eof (x ∷ built) es u = inr (ground arith, u)
read_failed-Takes unexpected_eof built es u = refl
read_failed-Takes (sentinel s) built es u = refl
read_failed-Takes (new_error s) built es u = refl
read_failed-Takes (other n) built es u = refl
read_failed-Takes (wrap s e) built es u = refl
read_failed-Takes (wrap_both s e f) built es u = refl

pub receive_loop-Takes :
    (built : Bytes) (es : List Event)
    → Unended built
    → let (r, es') = receive_loop built es in
      Takes (packets_from (is_eof (ending es)) built (stream es)) r es'
unfolding receive_loop
receive_loop-Takes built [] u = read_failed-Takes eof built [] u
receive_loop-Takes built (fail e ∷ es) u = read_failed-Takes e built es u
receive_loop-Takes built (arrive bs ∷ es) u =
    by_scan (scan built bs) (scan-Cuts (is_eof (ending es)) built bs (stream es) u)
      (λ more u'. receive_loop-Takes more es u')
  where
    by_scan :
        (r : (Bytes × Bytes) ⊎ Bytes)
        → Cuts
            (is_eof (ending es))
            (packets_from (is_eof (ending es)) built (bs ++ stream es))
            (stream es)
            r
        → ((more : Bytes)
            → Unended more
            → Takes
                (packets_from (is_eof (ending es)) more (stream es))
                (receive_loop more es).0
                (receive_loop more es).1)
        → let q : Result Bytes × List Event = elim r [
          | inl (packet, left) ↦ (ok packet, arrive left ∷ es)
          | inr more ↦ receive_loop more es
        ] in
          Takes (packets_from (is_eof (ending es)) built (bs ++ stream es)) q.0 q.1
    by_scan (inl ([], left)) (nonempty, cut) later = absurd (nonempty refl)
    by_scan (inl (x ∷ packet, left)) (nonempty, cut) later = inl cut
    by_scan (inr more) (same, u') later = rw same (later more u')

-- A text without two newlines side by side is not decoded.
module _ {O : Type 0} ⦃box : Box O⦄ where
  pub deserialize-Unended :
      (raw : Bytes) (old msg : Message O) → Unended raw → deserialize raw (some old) ≢ decoded msg
  unfolding deserialize
  deserialize-Unended raw old msg u h = elim (Option-cases (index raw tabs)) [
    | inl lacking ↦ ground (arith, lacking, h)
    | inr (i, tabs_at) ↦ elim (Option-cases (index raw auth_mark)) [
      | inl lacking ↦ ground (arith, tabs_at, lacking, h)
      | inr (j, auth_at) ↦ ground (arith, tabs_at, auth_at, u, h)
    ]
  ]
