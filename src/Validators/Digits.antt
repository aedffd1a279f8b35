-- ===== src/Validators/Digits.antt =====
-- The digits that dlpduck/validators.py reads from a text.
use dlpduck.Prelude.{ℕ, ◌<◌, ◌≡◌, inl, inr, List, [], ◌∷◌, ◌++◌, Option-cases, All}
use dlpduck.Document.{Text}
use dlpduck.Unicode.{Unicode}
use dlpduck.Validators.{digits}

pub digits-lt_ten : (u : Unicode) (s : Text) → All (λ d. d < 10) (digits u s)
unfolding digits
digits-lt_ten u [] = tt
digits-lt_ten u (c ∷ s) = elim (Option-cases (u.decimal c)) [
  | inl e ↦ rw (e, All) (digits-lt_ten u s)
  | inr p ↦ rw (p.1, All) (u.decimal-lt_ten c p.0 p.1, digits-lt_ten u s)
]

pub All-middle {ℓ κ} :
    {A : Type ℓ} (P : A → Type κ) (xs : List A) (a : A) (ys : List A) → All P (xs ++ a ∷ ys) → P a
All-middle P [] a ys h = h.0
All-middle P (x ∷ xs) a ys h = All-middle P xs a ys h.1

-- A digit in the middle of a text's digits is below ten.
pub digit-lt_ten :
    (u : Unicode) (s : Text) (pre : List ℕ) (d : ℕ) (post : List ℕ)
    → digits u s ≡ pre ++ d ∷ post
    → d < 10
digit-lt_ten u s pre d post h = All-middle (λ x. x < 10) pre d post (rw h at (digits-lt_ten u s))
