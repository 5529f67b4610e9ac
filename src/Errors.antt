-- ===== src/Errors.antt =====
-- errors_v2.go, the sentinel of atxp.go, and Go's way of wrapping errors.
use Prim.Native.String.{String}
use atxp.Common.{◌⊎◌, inl, inr, ℕ, ◌≡◌, refl, Bool, true, false, if◌then◌else◌}

pub data Sentinel : Type 0 where
  err_invalid_format err_frame_too_large err_frame_too_small err_invalid_checksum : Sentinel
  err_handshake err_weak_password err_replay err_invalid_envelope err_invalid_key : Sentinel

-- `wrap s e` is `fmt.Errorf("s: %w", e)`, and `wrap_both s e f` is `fmt.Errorf("s: %w: %w", e, f)`.
-- `new_error s` is `errors.New(s)`, and `other` is an error of a package that is not modelled.
pub data Error : Type 0 where
  sentinel : Sentinel → Error
  eof unexpected_eof : Error
  new_error : String → Error
  other : ℕ → Error
  wrap : String → Error → Error
  wrap_both : String → Error → Error → Error

pub data Result {ℓ} (A : Type ℓ) : Type ℓ where
  ok : A → Result A
  err : Error → Result A

module _ {ℓ κ} {A : Type ℓ} {B : Type κ} where
  -- if err != nil { return err }
  infixl 5 ◌>>=◌
  abbrev pub ◌>>=◌ : Result A → (A → Result B) → Result B
  ◌>>=◌ (err cause) next = err cause
  ◌>>=◌ (ok value) next = next value

  -- What came before a success was a success.
  pub >>=-eq-ok :
      (r : Result A) (next : A → Result B) {final : B}
      → (r >>= next) ≡ ok final
      → (value : A) × (r ≡ ok value) × (next value ≡ ok final)
  >>=-eq-ok (err cause) next h = cc
  >>=-eq-ok (ok value) next h = (value, refl, h)

-- A guard that returns early with an error was passed.
pub if-eq-ok {ℓ} :
    {A : Type ℓ} (b : Bool) (e : Error) (m : Result A) {a : A}
    → (if b then err e else m) ≡ ok a
    → (b ≡ false) × (m ≡ ok a)
if-eq-ok true e m h = cc
if-eq-ok false e m h = (refl, h)

module _ {ℓ} {A : Type ℓ} where
  pub Result-cases : (r : Result A) → ((a : A) × (r ≡ ok a)) ⊎ ((e : Error) × (r ≡ err e))
  Result-cases (ok a) = inl (a, refl)
  Result-cases (err e) = inr (e, refl)
