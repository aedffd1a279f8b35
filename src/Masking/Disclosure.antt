-- ===== src/Masking/Disclosure.antt =====
-- How much of a value its masked form discloses (dlpduck/masking.py, `mask`).
use mathlib.Core.List.{append-nil}
use native.Mathlib.Nat.{sub-zero}
use dlpduck.Prelude.{
  ℕ, ◌+◌, ◌-◌, ◌≤◌, ◌≡◌, refl, ◌⊎◌, inl, inr, ◌||◌, List, [], ◌∷◌, ◌++◌, arith, leb, ◌==◌,
  Bool-cases, length, drop, replicate,
}
use dlpduck.Document.{Text}
use dlpduck.Unicode.{Unicode}
use dlpduck.Masking.{bullet, alnums, mask}

drop-length {ℓ} : {A : Type ℓ} (xs : List A) → drop (length xs) xs ≡ []
drop-length [] = refl
drop-length (x ∷ xs) = drop-length xs

replicate_all :
    (xs : Text) → replicate (length xs) bullet ≡ replicate (length xs) bullet ++ drop (length xs) xs
replicate_all xs = rw (drop-length, append-nil)

-- The masked form has one character for each alphanumeric character of the value. All are bullets
-- but a tail of `shown` characters of the value, which is at most `keep` long and is not empty
-- only if at least four characters stay hidden.
pub mask_lem :
    (u : Unicode) (raw : Text) (keep : ℕ)
    → (shown : ℕ) × (mask u raw keep
        ≡ replicate (length (alnums u raw) - shown) bullet
          ++ drop (length (alnums u raw) - shown) (alnums u raw))
      × (shown ≤ keep)
      × ((shown ≡ 0) ⊎ (shown + 4 ≤ length (alnums u raw)))
unfolding mask
mask_lem u raw keep = elim (Bool-cases (keep == 0 || leb (length (alnums u raw)) (keep + 3))) [
  | inl e ↦ (0, rw sub-zero (ground (arith, replicate_all (alnums u raw))), omega arith, inl refl)
  | inr e ↦ (keep, ground arith, omega arith, ground arith)
]

-- The masked form depends on nothing but the number of alphanumeric characters and, where more
-- than `keep` + 3 of them are there, on the last `keep` of them.
pub mask_noninterference :
    (u : Unicode) (r s : Text) (keep : ℕ)
    → length (alnums u r) ≡ length (alnums u s)
    → (length (alnums u r) ≤ keep + 3)
      ⊎ (drop (length (alnums u r) - keep) (alnums u r)
          ≡ drop (length (alnums u s) - keep) (alnums u s))
    → mask u r keep ≡ mask u s keep
unfolding mask
mask_noninterference u r s keep n (inl few) = rw n (ground (arith, n, few))
mask_noninterference u r s keep n (inr t) = rw n (ground (arith, n, t))
