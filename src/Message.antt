-- ===== src/Message.antt =====
-- atxp.go, the types of a message; the package github.com/atendi9/box is a parameter.
use atxp.Common.{◌≡◌, Bool, false}
use atxp.Common.Int.{ℤ, pos}
use atxp.Wire.{Bytes}

-- box.Optional[[]byte], as `O`: `NewSome`, `IsEmpty` and `Get`, and what its documentation says.
pub record Box (O : Type 0) : Type 0 where
  pub new_some : Bytes → O
  pub is_empty : O → Bool
  pub get : O → Bytes
  pub is_empty-new_some : (b : Bytes) → is_empty (new_some b) ≡ false
  pub get-new_some : (b : Bytes) → get (new_some b) ≡ b

-- `MT`, an `int`. A message type outside the enumeration is possible.
abbrev pub Mt : Type 0
Mt = ℤ

abbrev pub url : Mt
url = pos 0

abbrev pub document : Mt
document = pos 1

abbrev pub notification : Mt
notification = pos 2

abbrev pub ResponseCode : Type 0
ResponseCode = ℤ

abbrev pub ok_code : ResponseCode
ok_code = pos 0

abbrev pub error_code : ResponseCode
error_code = pos 1

abbrev pub unauthorized : ResponseCode
unauthorized = pos 2

pub record Auth : Type 0 where
  pub username : Bytes
  pub password : Bytes

pub record Message (O : Type 0) : Type 0 where
  pub type : Mt
  pub body : O
  pub auth : Auth
  pub filename : Bytes
