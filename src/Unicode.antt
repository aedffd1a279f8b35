-- ===== src/Unicode.antt =====
-- The character tables of Python's `str` methods, which dlpduck/masking.py and
-- dlpduck/validators.py consult, as an interface; and the tables of ASCII, which fill it.
use dlpduck.Prelude.{
  ℕ, ◌+◌, ◌-◌, ◌<◌, ◌≡◌, Bool, ◌&&◌, ◌||◌, Option, none, some, map, arith, leb, if◌then◌else◌,
}
use dlpduck.Document.{Text}

pub record Unicode : Type 0 where
  pub is_alnum : ℕ → Bool  -- c.isalnum()
  pub is_alpha : ℕ → Bool  -- c.isalpha()
  pub decimal : ℕ → Option ℕ  -- int(c) if c.isdecimal()
  pub upper : Text → Text  -- s.upper()
  pub fold : Text → Text  -- unicodedata.normalize("NFKC", s).casefold()
  -- `int` of one decimal character is a digit.
  pub decimal-lt_ten : (c d : ℕ) → decimal c ≡ some d → d < 10

abbrev pub is_digit : ℕ → Bool
is_digit c = leb b'0' c && leb c b'9'

abbrev pub is_lower : ℕ → Bool
is_lower c = leb b'a' c && leb c b'z'

abbrev pub is_upper : ℕ → Bool
is_upper c = leb b'A' c && leb c b'Z'

abbrev ascii_decimal : ℕ → Option ℕ
ascii_decimal c = if is_digit c then some (c - b'0') else none

pub ascii_decimal-lt_ten : (c d : ℕ) → ascii_decimal c ≡ some d → d < 10
ascii_decimal-lt_ten c d h = ground arith

abbrev pub ascii : Unicode
ascii = record {
  is_alnum = λ c. is_digit c || is_lower c || is_upper c;
  is_alpha = λ c. is_lower c || is_upper c;
  decimal = ascii_decimal;
  upper = map (λ c. if is_lower c then c - 32 else c);
  fold = map (λ c. if is_upper c then c + 32 else c);
  decimal-lt_ten = ascii_decimal-lt_ten;
}
