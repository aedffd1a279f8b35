-- ===== src/Engine/Window.antt =====
-- The window of lines that `_context_near` walks is the one that the rule describes: slicing by
-- `bisect_left` and breaking off at the upper end leaves out no line and adds none.
use dlpduck.Prelude.{
  ℕ, suc, ◌≤◌, ◌<◌, ◌≡◌, refl, inl, inr, Bool, true, false, ◌&&◌, List, [], ◌∷◌, arith, ltb, leb,
  if◌then◌else◌, Bool-cases, drop, any_of,
}
use dlpduck.Document.{TextLine}
use dlpduck.Engine.{bisect_left}
use dlpduck.Engine.Reference.{NumberedFrom}

module _ (good : TextLine → Bool) (hi : ℕ) where
  -- The loop of `_context_near` on a text whose searches all return.
  unfoldable pub first_near : List TextLine → Bool
  first_near [] = false
  first_near (other ∷ rest) =
      let more = first_near rest in
      if ltb hi other.line_number then false else if good other then true else more

  in_window : ℕ → TextLine → Bool
  in_window lo other = (leb lo other.line_number && leb other.line_number hi) && good other

  beyond :
      (n lo : ℕ) (ls : List TextLine)
      → NumberedFrom n ls
      → hi < n
      → any_of (in_window lo) ls ≡ false
  unfolding in_window
  beyond n lo [] s h = refl
  beyond n lo (l ∷ ls) s h = ground (arith, beyond (suc n) lo ls s.1 (omega arith))

  first_near-all :
      (n lo : ℕ) (ls : List TextLine)
      → NumberedFrom n ls
      → lo ≤ n
      → first_near ls ≡ any_of (in_window lo) ls
  unfolding first_near in_window
  first_near-all n lo [] s h = refl
  first_near-all n lo (l ∷ ls) s h = elim (Bool-cases (ltb hi l.line_number)) [
    | inl e ↦ ground (arith, beyond (suc n) lo ls s.1 (ground arith))
    | inr e ↦ ground (arith, first_near-all (suc n) lo ls s.1 (omega arith))
  ]

  pub first_near-window :
      (n lo : ℕ) (ls : List TextLine)
      → NumberedFrom n ls
      → first_near (drop (bisect_left ls lo) ls)
        ≡ any_of (λ other. (leb lo other.line_number && leb other.line_number hi) && good other) ls
  unfolding bisect_left in_window first_near
  first_near-window n lo [] s = refl
  first_near-window n lo (l ∷ ls) s = elim (Bool-cases (ltb l.line_number lo)) [
    | inl e ↦ rw (e, bisect_left) (ground (arith, first_near-window (suc n) lo ls s.1))
    | inr e ↦ rw (e, bisect_left) (first_near-all n lo (l ∷ ls) s (ground arith))
  ]
