-- ===== src/Validators.antt =====
-- dlpduck/validators.py: checksums that tell an identifier from a run of digits.
pub mod Digits
pub mod Luhn
pub mod Nhs
use mathlib.Core.List.{reverse, foldl}
use dlpduck.Prelude.{
  ℕ, ◌+◌, ◌-◌, ◌*◌, ◌/◌, ◌%◌, Bool, true, false, not, ◌&&◌, ◌||◌, Option, none, some, List, [], ◌∷◌,
  ◌++◌, ltb, leb, ◌==◌, if◌then◌else◌, length, take, drop, keep_if, any_of,
}
use dlpduck.Document.{Text}
use dlpduck.Unicode.{Unicode, is_digit, is_upper}

-- `_digits`
unfoldable pub digits : Unicode → Text → List ℕ
digits u [] = []
digits u (c ∷ s) = let rest = digits u s in elim (u.decimal c) [ none ↦ rest | some d ↦ d ∷ rest ]

-- What a digit adds to the sum: every second digit is doubled, less 9 if that is over 9.
abbrev pub luhn_value : Bool → ℕ → ℕ
luhn_value false n = n
luhn_value true n = if ltb 9 (n * 2) then n * 2 - 9 else n * 2

-- The loop over the reversed digits, with its counter's parity.
unfoldable pub luhn_total : Bool → List ℕ → ℕ
luhn_total odd [] = 0
luhn_total odd (n ∷ rest) = luhn_value odd n + luhn_total (not odd) rest

unfoldable pub luhn : Unicode → Text → Bool
unfolding luhn_total
luhn u s =
    let ds = digits u s in
    if leb 13 (length ds) && leb (length ds) 19
    then luhn_total false (reverse ds) % 10 == 0
    else false

-- sum(d * w for d, w in zip(digits, range(w, 1, -1)))
unfoldable pub weighted : ℕ → List ℕ → ℕ
weighted w [] = 0
weighted w (d ∷ rest) = d * w + weighted (w - 1) rest

last_is : List ℕ → ℕ → Bool
last_is (d ∷ []) check = check == d
last_is _ check = false

-- The body of `nhs_mod11`, after `digits = _digits(s)`.
unfoldable pub nhs_check : List ℕ → Bool
unfolding last_is weighted
nhs_check ds =
    let check = 11 - weighted 10 (take 9 ds) % 11 in
    let checked = if check == 11 then 0 else check in
    if length ds == 10 then if checked == 10 then false else last_is (drop 9 ds) checked else false

unfoldable pub nhs_mod11 : Unicode → Text → Bool
unfolding nhs_check
nhs_mod11 u s = nhs_check (digits u s)

-- str(int(c, 36)) for a letter, and c itself for a digit, as decimal digits; any other character
-- makes `int` raise.
unfoldable pub base36 : ℕ → Option (List ℕ)
base36 c =
    if is_upper c
    then some (((c - 55) / 10) ∷ ((c - 55) % 10) ∷ [])
    else if is_digit c
    then some ((c - b'0') ∷ [])
    else none

unfoldable pub expand : Text → Option (List ℕ)
unfolding base36
expand [] = some []
expand (c ∷ s) =
    let rest = expand s in
    elim (base36 c) [
      | none ↦ none
      | some ds ↦ elim rest [ none ↦ none | some more ↦ some (ds ++ more) ]
    ]

-- int(digits)
unfoldable pub decimal_value : List ℕ → ℕ
decimal_value ds = foldl (λ n d. n * 10 + d) 0 ds

unfoldable pub iban_mod97 : Unicode → Text → Bool
unfolding expand decimal_value
iban_mod97 u s =
    let value = u.upper (keep_if u.is_alnum s) in
    if ltb (length value) 15 || ltb 34 (length value)
    then false
    else if any_of (λ c. leb 128 c) value
    then false
    else elim (expand (drop 4 value ++ take 4 value)) [
      | none ↦ false
      | some ds ↦ decimal_value ds % 97 == 1
    ]
