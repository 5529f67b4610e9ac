-- ===== src/Packet.antt =====
-- atxp.go, the text packets of version 1: Serialize and Deserialize, and what they use of strings.
-- Where Go panics on the bounds of a slice, the result is `panicked`.
pub mod Search
pub mod Parts
pub mod Pieces
pub mod Names
pub mod Laws
use atxp.Common.{
  ℕ, ◌+◌, ◌-◌, Bool, true, false, Option, none, some, List, [], ◌∷◌, ◌++◌, ◌&&◌, not, length, take,
  drop, leb, ◌==◌, eq_bytes, if◌then◌else◌, suc,
}
use mathlib.Core.Option
use atxp.Common.Int.{pos, negsuc, eq_int}
use atxp.Errors.{Error, Result, ok, err, sentinel, err_invalid_format}
use atxp.Wire.{Bytes}
use atxp.Message.{Box, Message, Mt, url, document, notification}

-- "\t\t", "\t\tAuth:" and "\n\n"
abbrev pub tabs : Bytes
tabs = 9 ∷ 9 ∷ []

abbrev pub auth_mark : Bytes
auth_mark = 9 ∷ 9 ∷ b'A' ∷ b'u' ∷ b't' ∷ b'h' ∷ b':' ∷ []

abbrev pub newlines : Bytes
newlines = 10 ∷ 10 ∷ []

abbrev pub url_name : Bytes
url_name = b'U' ∷ b'R' ∷ b'L' ∷ []

abbrev pub document_name : Bytes
document_name = b'D' ∷ b'o' ∷ b'c' ∷ b'u' ∷ b'm' ∷ b'e' ∷ b'n' ∷ b't' ∷ []

abbrev pub notification_name : Bytes
notification_name =
    b'N' ∷ b'o' ∷ b't' ∷ b'i' ∷ b'f' ∷ b'i' ∷ b'c' ∷ b'a' ∷ b't' ∷ b'i' ∷ b'o' ∷ b'n' ∷ []

abbrev pub unregistered_name : Bytes
unregistered_name = b'U' ∷ b'N' ∷ b'K' ∷ b'N' ∷ b'O' ∷ b'W' ∷ b'N' ∷ []

unfoldable pub type_to_string : Mt → Bytes
type_to_string message_type =
    if eq_int message_type url
    then url_name
    else if eq_int message_type document
    then document_name
    else if eq_int message_type notification
    then notification_name
    else unregistered_name

unfoldable pub string_to_type : Bytes → Mt
string_to_type str =
    if eq_bytes str url_name
    then url
    else if eq_bytes str document_name
    then document
    else if eq_bytes str notification_name
    then notification
    else negsuc 0

-- strings.HasPrefix
abbrev pub has_prefix : Bytes → Bytes → Bool
has_prefix s [] = true
has_prefix [] (p ∷ ps) = false
has_prefix (x ∷ s) (p ∷ ps) = x == p && has_prefix s ps

-- strings.Index; none for -1
unfoldable pub index : Bytes → Bytes → Option ℕ
index [] sub = if has_prefix [] sub then some 0 else none
index (x ∷ s) sub =
    let later = index s sub in if has_prefix (x ∷ s) sub then some 0 else Option.map suc later

-- strings.Split(s, "::"): the part that is being read, whether one colon stands behind it, the rest.
unfoldable pub split_colons : Bytes → Bool → Bytes → List Bytes
split_colons part false [] = part ∷ []
split_colons part true [] = (part ++ b':' ∷ []) ∷ []
split_colons part false (x ∷ s) =
    split_colons (if x == b':' then part else part ++ x ∷ []) (x == b':') s
split_colons part true (x ∷ s) =
    let rest = split_colons (if x == b':' then [] else part ++ b':' ∷ x ∷ []) false s in
    if x == b':' then part ∷ rest else rest

-- What `Deserialize` does: it fills the message, returns an error, or panics.
pub data Decoded (A : Type 0) : Type 0 where
  decoded : A → Decoded A
  refused : Error → Decoded A
  panicked : Decoded A

module _ {A : Type 0} where
  -- An index, or `ErrInvalidFormat` for -1.
  abbrev pub found : Option ℕ → (ℕ → Decoded A) → Decoded A
  found none f = refused (sentinel err_invalid_format)
  found (some i) f = f i

  -- s[lo:hi], where `hi` is an index of `s`
  abbrev pub sliced : ℕ → ℕ → Bytes → (Bytes → Decoded A) → Decoded A
  sliced lo hi s f = if leb lo hi then f (take (hi - lo) (drop lo s)) else panicked

-- The filename behind the assignments, from the parts behind the password.
abbrev pub named : Mt → List Bytes → Bytes → Bytes
named message_type [] old = old
named message_type (part ∷ parts) old = if eq_int message_type document then part else old

module _ {O : Type 0} ⦃box : Box O⦄ where
  -- The bytes of `msg.Data`, which `Serialize` sets to an empty slice if it is empty.
  abbrev pub filled : Message O → Message O
  filled msg = if box.is_empty msg.body then record msg { body = box.new_some [] } else msg

  -- "::" and the filename, of a document that has one
  abbrev pub name_part : Message O → Bytes
  name_part msg =
      if eq_int msg.type document && not (length msg.filename == 0)
      then b':' ∷ b':' ∷ msg.filename
      else []

  -- Returns the packet, and the message that `msg` points to after the call.
  unfoldable pub serialize : Option (Message O) → Result (Bytes × Message O)
  serialize none = err (sentinel err_invalid_format)
  serialize (some msg) =
      let msg' = filled msg in
      ok (
        type_to_string msg.type
            ++ (tabs
                ++ (box.get msg'.body
                    ++ (auth_mark
                        ++ ((msg'.auth.username
                              ++ b':' ∷ b':' ∷ (msg'.auth.password ++ name_part msg'))
                            ++ newlines)))),
        msg',
      )

  -- The check of the parts, and the assignments.
  unfoldable pub fill : Bytes → Bytes → List Bytes → Message O → Decoded (Message O)
  fill type_str data_str [] msg = refused (sentinel err_invalid_format)
  fill type_str data_str (part ∷ []) msg = refused (sentinel err_invalid_format)
  fill type_str data_str (username ∷ password ∷ more) msg = decoded (record msg {
    type = string_to_type type_str;
    body = box.new_some data_str;
    auth = record { username = username; password = password };
    filename = named (string_to_type type_str) more msg.filename;
  })

  unfoldable pub deserialize : Bytes → Option (Message O) → Decoded (Message O)
  deserialize buffer none = refused (sentinel err_invalid_format)
  deserialize buffer (some msg) =
      if length buffer == 0
      then refused (sentinel err_invalid_format)
      else found (index buffer tabs) (λ type_idx. found (index buffer auth_mark) (λ auth_idx.
        sliced (type_idx + 2) auth_idx buffer (λ data_str.
          found (index buffer newlines) (λ tail_idx.
            sliced (auth_idx + 7) tail_idx buffer (λ auth_str.
              fill (take type_idx buffer) data_str (split_colons [] false auth_str) msg)))))
