-- ===== src/Validators/Luhn.antt =====
-- The Luhn check detects every single wrong digit (dlpduck/validators.py, `luhn`).
use mathlib.Core.List.{reverse, reverse-append, append_assoc}
use dlpduck.Prelude.{
  ℕ, ◌+◌, ◌%◌, ◌<◌, ◌≡◌, ap, ◌∙◌, ◌≢◌, inl, inr, Bool, true, false, not, List, [], ◌∷◌, ◌++◌, arith,
  Bool-cases,
}
use dlpduck.Document.{Text}
use dlpduck.Unicode.{Unicode}
use dlpduck.Validators.{digits, luhn_value, luhn_total, luhn}
use dlpduck.Validators.Digits.{digit-lt_ten}

luhn_value-injective :
    (odd : Bool) (d e n : ℕ)
    → d < 10
    → e < 10
    → (luhn_value odd d + n) % 10 ≡ 0
    → (luhn_value odd e + n) % 10 ≡ 0
    → d ≡ e
luhn_value-injective true d e n hd he p q = ground arith
luhn_value-injective false d e n hd he p q = omega arith

luhn_total-changed :
    (odd : Bool) (acc : ℕ) (xs : List ℕ) (d e : ℕ) (ys : List ℕ)
    → d < 10
    → e < 10
    → (acc + luhn_total odd (xs ++ d ∷ ys)) % 10 ≡ 0
    → (acc + luhn_total odd (xs ++ e ∷ ys)) % 10 ≡ 0
    → d ≡ e
unfolding luhn_total
luhn_total-changed odd acc [] d e ys hd he p q =
    luhn_value-injective odd d e (acc + luhn_total (not odd) ys) hd he (omega (arith, p))
      (omega (arith, q))
luhn_total-changed odd acc (x ∷ xs) d e ys hd he p q =
    luhn_total-changed (not odd) (acc + luhn_value odd x) xs d e ys hd he (omega (arith, p))
      (omega (arith, q))

reverse-middle :
    (pre : List ℕ) (d : ℕ) (post : List ℕ)
    → reverse (pre ++ d ∷ post) ≡ reverse post ++ d ∷ reverse pre
reverse-middle pre d post =
    reverse-append pre (d ∷ post)
    ∙ ap (λ (t : List ℕ). t ++ reverse pre) (reverse-append (d ∷ []) post)
    ∙ append_assoc (reverse post) (d ∷ []) (reverse pre)

luhn-total_zero :
    (u : Unicode) (s : Text)
    → luhn u s ≡ true
    → (0 + luhn_total false (reverse (digits u s))) % 10 ≡ 0
unfolding luhn
luhn-total_zero u s h = ground arith

-- Two texts whose digits differ in one place, and only there, do not both pass the Luhn check.
pub luhn_single_error :
    (u : Unicode) (s t : Text) (pre : List ℕ) (d e : ℕ) (post : List ℕ)
    → digits u s ≡ pre ++ d ∷ post
    → digits u t ≡ pre ++ e ∷ post
    → d ≢ e
    → luhn u s ≡ true
    → luhn u t ≡ false
luhn_single_error u s t pre d e post hs ht ne p = elim (Bool-cases (luhn u t)) [
  | inl q ↦ absurd (
      ne (
        luhn_total-changed false 0 (reverse post) d e (reverse pre) (digit-lt_ten u s pre d post hs)
          (digit-lt_ten u t pre e post ht) (rw (hs, reverse-middle) at (luhn-total_zero u s p))
          (rw (ht, reverse-middle) at (luhn-total_zero u t q))))
  | inr q ↦ q
]
