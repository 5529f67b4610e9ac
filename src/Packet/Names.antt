-- ===== src/Packet/Names.antt =====
-- The names of the types in a packet: TypeToString and StringToType.
use atxp.Common.{
  ◌≡◌, refl, Bool, true, false, [], ◌∷◌, ◌&&◌, ◌||◌, not, length, ◌==◌, arith, if◌then◌else◌,
  Bool-cases, inl, inr,
}
use atxp.Common.Int.{negsuc, eq_int, eq_int_iff}
use atxp.Wire.{Bytes}
use atxp.Message.{Mt, url, document, notification}
use atxp.Packet.{
  url_name, document_name, notification_name, unregistered_name, type_to_string, string_to_type,
  named,
}
use atxp.Packet.Parts.{HasNoTab, HasNoNewline}

-- A type that is named comes back, and every other one as -1.
pub string_to_type-type_to_string :
    (code : Mt)
    → string_to_type (type_to_string code) ≡ (
        if eq_int code url || eq_int code document || eq_int code notification
        then code
        else negsuc 0)
unfolding string_to_type type_to_string
string_to_type-type_to_string code =
    ground (arith, eq_int_iff code url, eq_int_iff code document, eq_int_iff code notification)

abbrev pub IsClean : Bytes → Type 0
IsClean bs = HasNoTab bs × HasNoNewline bs

IsClean-if : (b : Bool) (x y : Bytes) → IsClean x → IsClean y → IsClean (if b then x else y)
IsClean-if true x y h k = h
IsClean-if false x y h k = k

pub type_to_string-IsClean : (code : Mt) → IsClean (type_to_string code)
unfolding type_to_string
type_to_string-IsClean code =
    IsClean-if (eq_int code url) url_name
      (if eq_int code document
        then document_name
        else if eq_int code notification
        then notification_name
        else unregistered_name)
      (search arith depth 40)
      (IsClean-if (eq_int code document) document_name
        (if eq_int code notification then notification_name else unregistered_name)
        (search arith depth 40)
        (IsClean-if (eq_int code notification) notification_name unregistered_name
          (search arith depth 40) (search arith depth 40)))

-- The filename that comes back of a document, and of anything else.
pub named-string_to_type :
    (code : Mt) (filename old : Bytes)
    → named
        (string_to_type (type_to_string code))
        (if eq_int code document && not (length filename == 0) then filename ∷ [] else [])
        old
      ≡ (if eq_int code document && not (length filename == 0) then filename else old)
named-string_to_type code filename old = elim (Bool-cases (eq_int code document)) [
  | inr e ↦ rw e refl
  | inl e ↦
      let known : string_to_type (type_to_string code) ≡ document =
        ground (arith, string_to_type-type_to_string code, eq_int_iff code document) in
      rw (e, known) (by_name (not (length filename == 0)))
]
  where
    by_name :
        (b : Bool)
        → named document (if b then filename ∷ [] else []) old ≡ (if b then filename else old)
    by_name true = refl
    by_name false = refl
