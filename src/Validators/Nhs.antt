-- ===== src/Validators/Nhs.antt =====
-- The NHS check is a weighted sum modulo 11, which detects every single wrong digit
-- (dlpduck/validators.py, `nhs_mod11`).
use native.Mathlib.Nat.{zero-add, sub-zero}
use dlpduck.Validators.Digits.{digits-lt_ten, digit-lt_ten}
use dlpduck.Prelude.{
  ℕ, zero, suc, ◌+◌, ◌-◌, ◌*◌, ◌%◌, ◌<◌, ◌≡◌, refl, ◌∙◌, ◌≢◌, ◌↔◌, inl, inr, true, false, List, [],
  ◌∷◌, ◌++◌, arith, ◌==◌, if◌then◌else◌, Bool-cases, length, take, drop, length-append, length-drop,
  All,
}
use dlpduck.Document.{Text}
use dlpduck.Unicode.{Unicode}
use dlpduck.Validators.{digits, weighted, nhs_check, nhs_mod11}

weighted-take-drop :
    (k w : ℕ) (ds : List ℕ) → weighted w ds ≡ weighted w (take k ds) + weighted (w - k) (drop k ds)
unfolding weighted
weighted-take-drop zero w ds = rw (zero-add, sub-zero)
weighted-take-drop (suc k) w [] = omega arith
weighted-take-drop (suc k) w (d ∷ ds) =
    let e : w - 1 - k ≡ w - suc k = omega arith in
    rw (← e) (omega (arith, weighted-take-drop k (w - 1) ds))

check_digit :
    (total d : ℕ)
    → d < 10
    → (let check = 11 - total % 11 in
        let checked = if check == 11 then 0 else check in
        ((if checked == 10 then false else checked == d) ≡ true) ↔ ((total + d * 1) % 11 ≡ 0))
check_digit total d h = ground arith

single : (ds : List ℕ) → length ds ≡ 1 → (d : ℕ) × (ds ≡ d ∷ [])
single [] h = absurd (omega arith)
single (d ∷ []) h = (d, refl)
single (d ∷ e ∷ ds) h = absurd (omega arith)

All-drop {ℓ κ} : {A : Type ℓ} (P : A → Type κ) (n : ℕ) (xs : List A) → All P xs → All P (drop n xs)
All-drop P zero xs h = h
All-drop P (suc n) [] h = h
All-drop P (suc n) (x ∷ xs) h = All-drop P n xs h.1

-- The ten digits of a number, as the code takes them apart.
module _ (ds : List ℕ) (small : All (λ d. d < 10) ds) (ten : length ds ≡ 10) where
  tenth : (d : ℕ) × (drop 9 ds ≡ d ∷ [])
  tenth = single (drop 9 ds) (omega (arith, length-drop 9 ds))

  tenth-lt_ten : tenth.0 < 10
  tenth-lt_ten = (rw (tenth.1) at (All-drop (λ d. d < 10) 9 ds small)).0

  weighted-tenth : weighted 10 ds ≡ weighted 10 (take 9 ds) + tenth.0 * 1
  unfolding weighted
  weighted-tenth = weighted-take-drop 9 10 ds ∙ rw (tenth.1) (omega arith)

  nhs_check_iff : (nhs_check ds ≡ true) ↔ (weighted 10 ds % 11 ≡ 0)
  unfolding nhs_check
  nhs_check_iff =
      rw (weighted-tenth, tenth.1, ten) (check_digit (weighted 10 (take 9 ds)) tenth.0 tenth-lt_ten)

nhs_check-length : (ds : List ℕ) → nhs_check ds ≡ true → length ds ≡ 10
unfolding nhs_check
nhs_check-length ds h = ground arith

-- A text passes the NHS check exactly when it has ten digits and their sum, weighted by 10 down to
-- 1, is a multiple of 11.
pub nhs_mod11_iff :
    (u : Unicode) (s : Text)
    → (nhs_mod11 u s ≡ true) ↔ ((length (digits u s) ≡ 10) × (weighted 10 (digits u s) % 11 ≡ 0))
unfolding nhs_mod11
nhs_mod11_iff u s =
    let small = digits-lt_ten u s in
    (
      λ h.
          let ten = nhs_check-length (digits u s) h in
          (ten, (nhs_check_iff (digits u s) small ten).0 h),
      λ p. (nhs_check_iff (digits u s) small p.0).1 p.1,
    )

weight-ten : (d e n : ℕ) → d < 10 → e < 10 → (n + d * 10) % 11 ≡ 0 → (n + e * 10) % 11 ≡ 0 → d ≡ e
weight-ten d e n hd he p q = omega arith

weight-injective :
    (w d e n : ℕ)
    → 0 < w
    → w < 11
    → d < 10
    → e < 10
    → (n + d * w) % 11 ≡ 0
    → (n + e * w) % 11 ≡ 0
    → d ≡ e
weight-injective zero d e n lo hi hd he p q = absurd (omega arith)
weight-injective (suc zero) d e n lo hi hd he p q = omega arith
weight-injective (suc (suc zero)) d e n lo hi hd he p q = omega arith
weight-injective (suc (suc (suc zero))) d e n lo hi hd he p q = omega arith
weight-injective (suc (suc (suc (suc zero)))) d e n lo hi hd he p q = omega arith
weight-injective (suc (suc (suc (suc (suc zero))))) d e n lo hi hd he p q = omega arith
weight-injective (suc (suc (suc (suc (suc (suc zero)))))) d e n lo hi hd he p q = omega arith
weight-injective (suc (suc (suc (suc (suc (suc (suc zero))))))) d e n lo hi hd he p q = omega arith
weight-injective (suc (suc (suc (suc (suc (suc (suc (suc zero)))))))) d e n lo hi hd he p q =
    omega arith
weight-injective (suc (suc (suc (suc (suc (suc (suc (suc (suc zero))))))))) d e n lo hi hd he p q =
    omega arith
weight-injective (suc (suc (suc (suc (suc (suc (suc (suc (suc (suc w)))))))))) d e n lo hi hd he p
      q =
    let z : w ≡ 0 = omega arith in weight-ten d e n hd he (rw z at p) (rw z at q)

weighted-middle :
    (w : ℕ) (pre : List ℕ) (d : ℕ) (post : List ℕ)
    → weighted w (pre ++ d ∷ post)
      ≡ weighted w pre + weighted (w - length pre - 1) post + d * (w - length pre)
unfolding weighted
weighted-middle w [] d post = rw sub-zero (omega arith)
weighted-middle w (x ∷ pre) d post =
    let e : w - 1 - length pre ≡ w - suc (length pre) = omega arith in
    rw (← e) (omega (arith, weighted-middle (w - 1) pre d post))

-- Two texts whose digits differ in one place, and only there, do not both pass the NHS check.
pub nhs_single_error :
    (u : Unicode) (s t : Text) (pre : List ℕ) (d e : ℕ) (post : List ℕ)
    → digits u s ≡ pre ++ d ∷ post
    → digits u t ≡ pre ++ e ∷ post
    → d ≢ e
    → nhs_mod11 u s ≡ true
    → nhs_mod11 u t ≡ false
nhs_single_error u s t pre d e post hs ht ne p = elim (Bool-cases (nhs_mod11 u t)) [
  | inr q ↦ q
  | inl q ↦
      let (ten, zs) = (nhs_mod11_iff u s).0 p in
      let (ten', zt) = (nhs_mod11_iff u t).0 q in
      let len : length (pre ++ d ∷ post) ≡ 10 = rw (← hs) ten in
      let low : length pre < 10 = omega (arith, length-append pre (d ∷ post)) in
      absurd (
        ne (
          weight-injective (10 - length pre) d e _ (omega arith) (omega arith)
            (digit-lt_ten u s pre d post hs) (digit-lt_ten u t pre e post ht)
            (rw (hs, weighted-middle) at zs) (rw (ht, weighted-middle) at zt)))
]
