-- ===== src/Endpoint/Options.antt =====
-- What the options can make of an endpoint.
use atxp.Common.{◌≡◌, refl, subst, ◌∙◌, List, [], ◌∷◌, All, length, ◌==◌, arith, false, true}
use atxp.Common.Int.{ℤ, pos, le_int}
use atxp.Errors.{ok, if-eq-ok}
use atxp.Wire.{Bytes}
use atxp.Frame.{min_frame_size_v2}
use atxp.Endpoint.{
  V2, OptionV2, with_iterations, with_handshake_timeout, with_max_frame_size, apply_options,
  default_v2, new_v2,
}

-- A positive iteration count and timeout, and a cap that admits the smallest frame.
pub record IsValid (v : V2) : Type 0 where
  pub iterations : le_int v.iterations (pos 0) ≡ false
  pub timeout : le_int v.timeout (pos 0) ≡ false
  pub max_frame_size : le_int (pos min_frame_size_v2) v.max_frame_size ≡ true

-- The options that the package exports.
pub data IsOption : OptionV2 → Type 0 where
  iterations_option : (n : ℤ) → IsOption (with_iterations n)
  timeout_option : (d : ℤ) → IsOption (with_handshake_timeout d)
  cap_option : (n : ℤ) → IsOption (with_max_frame_size n)

option-IsValid :
    {opt : OptionV2}
    → IsOption opt
    → (v : V2) → IsValid v
    → IsValid (opt v) × ((opt v).password ≡ v.password)
unfolding with_iterations with_handshake_timeout with_max_frame_size
option-IsValid (iterations_option n) v h = ground arith
option-IsValid (timeout_option d) v h = ground arith
option-IsValid (cap_option n) v h = ground arith

apply_options-IsValid :
    (opts : List OptionV2) (v : V2)
    → All IsOption opts
    → IsValid v
    → IsValid (apply_options v opts) × ((apply_options v opts).password ≡ v.password)
unfolding apply_options
apply_options-IsValid [] v os h = (h, refl)
apply_options-IsValid (opt ∷ opts) v (o, os) h =
    let (h', p) = option-IsValid o v h in
    let (k, q) = apply_options-IsValid opts (opt v) os h' in (k, q ∙ p)

-- With options that are made by WithIterations, WithHandshakeTimeout and WithMaxFrameSize, whatever
-- their arguments and in whatever order, an endpoint that `NewV2` returns has a positive
-- iteration count, a positive timeout and a cap of at least 28 bytes, and it keeps the password, which
-- is not empty.
pub new_v2-IsValid :
    (password : Bytes) (opts : List OptionV2) (v : V2)
    → All IsOption opts
    → new_v2 password opts ≡ ok v
    → IsValid v × (v.password ≡ password) × ((length password == 0) ≡ false)
unfolding new_v2
new_v2-IsValid password opts v os h =
    let (nonempty, h') = if-eq-ok (length password == 0) _ _ h in
    let (k, q) = apply_options-IsValid opts (default_v2 password) os (ground arith) in
    (subst IsValid (cc h') k, ground arith, nonempty)
