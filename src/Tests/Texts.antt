-- ===== src/Tests/Texts.antt =====
-- Documents, masks and checksums at concrete inputs.
use dlpduck.Prelude.{
  ℕ, ◌+◌, ◌-◌, ◌%◌, ◌≤◌, String, ◌≡◌, refl, ◌≢◌, ◌↔◌, ◌⊎◌, inr, Bool, true, false, none, some, List,
  [], ◌∷◌, ◌++◌, map, arith, length, take, drop, replicate, All,
}
use dlpduck.Document.{
  Text, low, high, native, TextLine, quarantine, flag, DlpHit, DocumentText, full_text, line_at,
  offset_of, highest_severity,
}
use dlpduck.Document.Offsets.{offset_of-line_at}
use dlpduck.Unicode.{ascii}
use dlpduck.Masking.{bullet, alnums, mask}
use dlpduck.Masking.Disclosure.{mask_lem, mask_noninterference}
use dlpduck.Validators.{digits, luhn, weighted, nhs_mod11, iban_mod97}
use dlpduck.Validators.Luhn.{luhn_single_error}
use dlpduck.Validators.Nhs.{nhs_mod11_iff, nhs_single_error}
use dlpduck.Disposition.{archive, quarantined, decide}
use dlpduck.Disposition.Policy.{IsWhole, decide-archive_iff}

abbrev first_line : TextLine
first_line = record {
  line_number = 0;
  page_number = 1;
  line_on_page = 0;
  lines_on_page = 2;
  text = b'a' ∷ b'b' ∷ [];
  source = native;
  confidence = none;
}

abbrev second_line : TextLine
second_line = record first_line { line_number = 1; line_on_page = 1; text = b'c' ∷ [] }

abbrev two_lines : DocumentText
two_lines = record {
  lines = first_line ∷ second_line ∷ [];
  page_count = 1;
  ocr_page_count = 0;
  degraded = false;
  failed_page_count = 0;
  blank_page_count = 0;
}

offset_of-line_at_example :
    (off : ℕ) × (offset_of two_lines 1 ≡ some off)
    × (take 1 (drop off (full_text two_lines)) ≡ b'c' ∷ [])
    × ((k : ℕ) → k ≤ 1 → line_at two_lines (off + k) ≡ some second_line)
offset_of-line_at_example = offset_of-line_at two_lines 1 second_line refl

abbrev low_hit : DlpHit
low_hit = record {
  rule_id = "a";
  rule_name = "A";
  severity = low;
  action = flag;
  page_number = 1;
  line_number = 0;
  line_on_page = 0;
  start = 0;
  stop = 2;
  masked_text = [];
  match_hmac = [];
  validator = none;
}

abbrev high_hit : DlpHit
high_hit = record low_hit { severity = high; action = quarantine }

highest_of_two : highest_severity (low_hit ∷ high_hit ∷ []) ≡ some high
unfolding highest_severity
highest_of_two = refl

decide-archive_iff_example :
    ((decide two_lines (high_hit ∷ []) true ≡ (archive, none)) ↔ (
      All (λ (h : DlpHit). h.action ≢ quarantine) (high_hit ∷ [])
      × ((◌≡◌ {A = Bool} true false) ⊎ IsWhole two_lines)))
    × ((decide two_lines (high_hit ∷ []) true ≡ (archive, none))
        ⊎ ((r : String) × (decide two_lines (high_hit ∷ []) true ≡ (quarantined, some r))))
decide-archive_iff_example = decide-archive_iff two_lines (high_hit ∷ []) true

-- "12-345678"
abbrev account : Text
account = b'1' ∷ b'2' ∷ b'-' ∷ b'3' ∷ b'4' ∷ b'5' ∷ b'6' ∷ b'7' ∷ b'8' ∷ []

mask_lem_example :
    (shown : ℕ) × (mask ascii account 2
      ≡ replicate (length (alnums ascii account) - shown) bullet
        ++ drop (length (alnums ascii account) - shown) (alnums ascii account))
    × (shown ≤ 2)
    × ((shown ≡ 0) ⊎ (shown + 4 ≤ length (alnums ascii account)))
mask_lem_example = mask_lem ascii account 2

account_masked :
    mask ascii account 2 ≡ bullet ∷ bullet ∷ bullet ∷ bullet ∷ bullet ∷ bullet ∷ b'7' ∷ b'8' ∷ []
unfolding mask
account_masked = refl

-- "99345678"
abbrev other_account : Text
other_account = b'9' ∷ b'9' ∷ b'3' ∷ b'4' ∷ b'5' ∷ b'6' ∷ b'7' ∷ b'8' ∷ []

mask_noninterference_example : mask ascii account 2 ≡ mask ascii other_account 2
mask_noninterference_example = mask_noninterference ascii account other_account 2 refl (inr refl)

-- 4111111111111111, a test card number
abbrev card_tail : List ℕ
card_tail = 1 ∷ 1 ∷ 1 ∷ 1 ∷ 1 ∷ 1 ∷ 1 ∷ 1 ∷ 1 ∷ 1 ∷ 1 ∷ 1 ∷ 1 ∷ 1 ∷ []

abbrev spell : List ℕ → Text
spell = map (λ d. b'0' + d)

luhn_single_error_example : luhn ascii (spell (4 ∷ 2 ∷ card_tail)) ≡ false
unfolding luhn digits
luhn_single_error_example =
    luhn_single_error ascii (spell (4 ∷ 1 ∷ card_tail)) (spell (4 ∷ 2 ∷ card_tail)) (4 ∷ []) 1 2
      card_tail refl refl (omega arith) refl

-- 943 476 5919, a test NHS number
abbrev nhs_number : List ℕ
nhs_number = 9 ∷ 4 ∷ 3 ∷ 4 ∷ 7 ∷ 6 ∷ 5 ∷ 9 ∷ 1 ∷ 9 ∷ []

nhs_mod11_iff_example : (nhs_mod11 ascii (spell nhs_number) ≡ true) ↔ (
    (length (digits ascii (spell nhs_number)) ≡ 10)
    × (weighted 10 (digits ascii (spell nhs_number)) % 11 ≡ 0))
nhs_mod11_iff_example = nhs_mod11_iff ascii (spell nhs_number)

abbrev nhs_tail : List ℕ
nhs_tail = 4 ∷ 3 ∷ 4 ∷ 7 ∷ 6 ∷ 5 ∷ 9 ∷ 1 ∷ 9 ∷ []

nhs_single_error_example : nhs_mod11 ascii (spell (8 ∷ nhs_tail)) ≡ false
unfolding nhs_mod11 digits
nhs_single_error_example =
    nhs_single_error ascii (spell (9 ∷ nhs_tail)) (spell (8 ∷ nhs_tail)) [] 9 8 nhs_tail refl refl
      (omega arith) refl

-- GB82WEST12345698765432
abbrev iban : Text
iban =
    b'G'
    ∷ b'B'
    ∷ b'8'
    ∷ b'2'
    ∷ b'W'
    ∷ b'E'
    ∷ b'S'
    ∷ b'T'
    ∷ spell (1 ∷ 2 ∷ 3 ∷ 4 ∷ 5 ∷ 6 ∷ 9 ∷ 8 ∷ 7 ∷ 6 ∷ 5 ∷ 4 ∷ 3 ∷ 2 ∷ [])

iban_passes : iban_mod97 ascii iban ≡ true
unfolding iban_mod97
iban_passes = refl
