-- ===== src/Tests/Infixes.antt =====
-- A test of all pieces of a text, for the hypothesis on a network that it does not forge.
use atxp.Common.{
  ◌≡◌, ◌∙◌, sym, ap, Bool, true, [], ◌∷◌, ◌++◌, ◌&&◌, append_assoc, append-nil, arith,
}
use atxp.Wire.{Bytes}

module _ (p : Bytes → Bool) where
  -- The test holds for `built` with any bytes from the front of the text.
  unfoldable pub all_fronts : Bytes → Bytes → Bool
  all_fronts built [] = p built
  all_fronts built (x ∷ s) = p built && all_fronts (built ++ x ∷ []) s

  -- The test holds for every piece of the text.
  unfoldable pub all_infixes : Bytes → Bool
  unfolding all_fronts
  all_infixes [] = p []
  all_infixes (x ∷ s) = all_fronts [] (x ∷ s) && all_infixes s

  all_fronts-append :
      (built front rest : Bytes)
      → all_fronts built (front ++ rest) ≡ true
      → p (built ++ front) ≡ true
  unfolding all_fronts
  all_fronts-append built [] [] h = ap p (append-nil built) ∙ h
  all_fronts-append built [] (x ∷ s) h = ap p (append-nil built) ∙ ground arith
  all_fronts-append built (x ∷ front) rest h =
      ap p (sym (append_assoc built (x ∷ []) front))
      ∙ all_fronts-append (built ++ x ∷ []) front rest (ground arith)

  pub all_infixes-append :
      (front piece rest : Bytes) → all_infixes (front ++ (piece ++ rest)) ≡ true → p piece ≡ true
  unfolding all_infixes
  all_infixes-append [] [] [] h = h
  all_infixes-append [] [] (x ∷ rest) h = all_fronts-append [] [] (x ∷ rest) (ground arith)
  all_infixes-append [] (x ∷ piece) rest h = all_fronts-append [] (x ∷ piece) rest (ground arith)
  all_infixes-append (x ∷ front) piece rest h = all_infixes-append front piece rest (ground arith)
