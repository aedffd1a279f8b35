-- ===== src/Document.antt =====
-- dlpduck/types.py: severities, lines, hits and the extracted text of a document.
-- A text is the list of its code points; an OCR confidence is a number on a fixed scale, of which
-- the code uses only the order. An `IndexError` is `none`.
pub mod Equality
pub mod Offsets
pub mod Summary
use Prim.Native.Nat.{min}
use dlpduck.Prelude.{
  ℕ, suc, ◌+◌, ◌-◌, String, Bool, true, false, ◌&&◌, Option, none, some, List, [], ◌∷◌, ◌++◌, map,
  ltb, leb, ◌==◌, if◌then◌else◌, length, get_elem?,
}

abbrev pub Text : Type 0
Text = List ℕ

-- a == b
abbrev pub same_text : Text → Text → Bool
same_text [] [] = true
same_text [] (y ∷ ys) = false
same_text (x ∷ xs) [] = false
same_text (x ∷ xs) (y ∷ ys) = x == y && same_text xs ys

pub data Severity : Type 0 where
  info low medium high critical : Severity

unfoldable pub rank : Severity → ℕ
rank info = 0
rank low = 1
rank medium = 2
rank high = 3
rank critical = 4

pub data Source : Type 0 where
  native ocr : Source

pub record TextLine : Type 0 where
  pub line_number : ℕ
  pub page_number : ℕ
  pub line_on_page : ℕ
  pub lines_on_page : ℕ
  pub text : Text
  pub source : Source
  pub confidence : Option ℕ

pub data Action : Type 0 where
  quarantine flag ignore : Action

pub record DlpHit : Type 0 where
  pub rule_id : String
  pub rule_name : String
  pub severity : Severity
  pub action : Action
  pub page_number : ℕ
  pub line_number : ℕ
  pub line_on_page : ℕ
  pub start : ℕ
  pub stop : ℕ  -- the source's `end`
  pub masked_text : Text
  pub match_hmac : Text
  pub validator : Option String

pub record DocumentText : Type 0 where
  pub lines : List TextLine
  pub page_count : ℕ
  pub ocr_page_count : ℕ
  pub degraded : Bool
  pub failed_page_count : ℕ
  pub blank_page_count : ℕ

unfoldable pub add_line : DocumentText → TextLine → DocumentText
add_line doc line = record doc { lines = doc.lines ++ line ∷ [] }

abbrev pub newline : ℕ
newline = 10

-- "\n".join(texts)
unfoldable pub join_lines : List Text → Text
join_lines [] = []
join_lines (t ∷ []) = t
join_lines (t ∷ u ∷ rest) = t ++ newline ∷ join_lines (u ∷ rest)

abbrev pub line_text : TextLine → Text
line_text line = line.text

unfoldable pub full_text : DocumentText → Text
unfolding join_lines
full_text doc = join_lines (map line_text doc.lines)

-- The loop of `_offsets`, with its counter `n`.
unfoldable pub offsets_from : ℕ → List TextLine → List ℕ
offsets_from n [] = []
offsets_from n (line ∷ rest) = n ∷ offsets_from (n + length line.text + 1) rest

unfoldable pub offsets : DocumentText → List ℕ
unfolding offsets_from
offsets doc = offsets_from 0 doc.lines

-- bisect.bisect_right on a sorted list: how many leading elements are at most `x`.
unfoldable pub bisect_right : List ℕ → ℕ → ℕ
bisect_right [] x = 0
bisect_right (o ∷ rest) x = let more = bisect_right rest x in if leb o x then suc more else 0

-- `idx - 1` is -1 where nothing is at most `offset`; `max(0, ...)` makes that 0, as `-` here does.
unfoldable pub line_at : DocumentText → ℕ → Option TextLine
unfolding offsets bisect_right
line_at doc offset =
    get_elem? doc.lines (min (bisect_right (offsets doc) offset - 1) (length doc.lines - 1))

unfoldable pub offset_of : DocumentText → ℕ → Option ℕ
unfolding offsets
offset_of doc line_number = get_elem? (offsets doc) line_number

unfoldable pub confidences : List TextLine → List ℕ
confidences [] = []
confidences (line ∷ rest) =
    let more = confidences rest in elim line.confidence [ none ↦ more | some c ↦ c ∷ more ]

-- min(first, *rest)
unfoldable pub min_of : ℕ → List ℕ → ℕ
min_of best [] = best
min_of best (c ∷ rest) = min_of (min best c) rest

unfoldable pub min_ocr_confidence : DocumentText → Option ℕ
unfolding confidences min_of
min_ocr_confidence doc = elim (confidences doc.lines) [
  | [] ↦ none
  | c ∷ rest ↦ some (min_of c rest)
]

-- max(severities, key=rank): the first of the greatest.
unfoldable pub max_severity : Severity → List DlpHit → Severity
unfolding rank
max_severity best [] = best
max_severity best (h ∷ rest) =
    max_severity (if ltb (rank best) (rank h.severity) then h.severity else best) rest

-- JobContext.highest_severity, and the same expression in reprocess.py.
unfoldable pub highest_severity : List DlpHit → Option Severity
unfolding max_severity
highest_severity [] = none
highest_severity (h ∷ rest) = some (max_severity h.severity rest)

-- JobContext.flagged
unfoldable pub flagged : List DlpHit → Bool
flagged [] = false
flagged (h ∷ rest) = true
