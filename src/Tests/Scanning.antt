-- ===== src/Tests/Scanning.antt =====
-- A scan with patterns that are single characters, over a clock that stands still.
use dlpduck.Prelude.{
  ℕ, suc, ◌+◌, ◌<◌, ◌≡◌, refl, ◌⊎◌, Bool, true, false, none, some, List, [], ◌∷◌, arith, ◌==◌,
  if◌then◌else◌, length, any_of,
}
use dlpduck.Document.{
  Text, medium, ocr, TextLine, quarantine, DlpHit, DocumentText, full_text, offset_of,
}
use dlpduck.Unicode.{ascii}
use dlpduck.Rules.{by_line, by_document, in_document, Rule}
use dlpduck.Engine.{DlpEngine, group, make_hit, hits, scan}
use dlpduck.Engine.Effects.{Span, Regex}
use dlpduck.Engine.Reference.{all_hits}
use dlpduck.Masking.Reveal.{rederive_hit_value, make_hit-rederived}
use dlpduck.Engine.Complete.{IsFaithful, scan_complete}

abbrev spans : ℕ → ℕ → Text → List Span
spans i c [] = []
spans i c (d ∷ x) = let rest = spans (suc i) c x in if c == d then (i, suc i) ∷ rest else rest

abbrev has_char : ℕ → Text → Bool
has_char c x = any_of (λ d. c == d) x

abbrev char_env : Regex
char_env = record {
  Pattern = ℕ;
  finditer = λ c x left t. some (spans 0 c x);
  search = λ c x left t. some (has_char c x);
  now = λ t. 0;
}

char_env-IsFaithful : IsFaithful char_env (spans 0) has_char
char_env-IsFaithful = record {
  finditer_found = λ p x left t ms h. cc;
  search_contains = λ p x left t b h. cc;
}

abbrev line_a : TextLine
line_a = record {
  line_number = 0;
  page_number = 1;
  line_on_page = 0;
  lines_on_page = 2;
  text = b'x' ∷ b'a' ∷ [];
  source = ocr;
  confidence = some 90;
}

abbrev line_b : TextLine
line_b = record line_a { line_number = 1; line_on_page = 1; text = b'a' ∷ b'k' ∷ [] }

abbrev page : DocumentText
page = record {
  lines = line_a ∷ line_b ∷ [];
  page_count = 1;
  ocr_page_count = 1;
  degraded = false;
  failed_page_count = 0;
  blank_page_count = 0;
}

abbrev rule_a : Rule ℕ
rule_a = record {
  id = "a";
  name = "the letter a, near a k";
  pattern = b'a';
  severity = medium;
  action = quarantine;
  scope = by_line;
  line_scope = in_document;
  from_end = false;
  min_line = some 0;
  max_line = none;
  validator = λ x. true;
  validator_name = none;
  mask_keep = 0;
  ctx_regex = some b'k';
  ctx_window = 1;
  enabled = true;
}

abbrev rule_doc : Rule ℕ
rule_doc = record rule_a { id = "d"; scope = by_document; ctx_regex = none; max_line = some 0 }

abbrev engine : DlpEngine ℕ
engine = record {
  rules = rule_a ∷ rule_doc ∷ [];
  key = [];
  rule_budget_seconds = 2;
  unicode = ascii;
  hmac = λ key x. x;
}

abbrev expected : List DlpHit
expected =
    make_hit engine rule_a line_a 1 2 (b'a' ∷ [])
    ∷ make_hit engine rule_a line_b 0 1 (b'a' ∷ [])
    ∷ make_hit engine rule_doc line_a 1 2 (b'a' ∷ [])
    ∷ []

page_scanned : scan char_env engine page 0 ≡ hits expected
unfolding scan
page_scanned = refl

scan_complete_example : expected ≡ all_hits (spans 0) has_char engine page
scan_complete_example =
    scan_complete char_env (spans 0) has_char char_env-IsFaithful engine page 0 expected
      (refl, (refl, tt)) page_scanned

-- The value of a hit in the second line.
make_hit-rederived_example :
    (rederive_hit_value ascii (some page) (make_hit engine rule_a line_b 0 1 (b'a' ∷ []))
      ≡ some (b'a' ∷ []))
    × ((length line_b.text < 1)
        ⊎ (group (full_text page) (3 + 0, 3 + 1) ≡ group line_b.text (0, 1)))
unfolding full_text offset_of group
make_hit-rederived_example =
    make_hit-rederived engine rule_a page line_b 3 0 1 refl refl refl (omega arith) (omega arith)
