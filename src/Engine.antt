-- ===== src/Engine.antt =====
-- dlpduck/engine.py: every rule is run against every line, or against the joined text, under a time
-- budget. The package `regex` and the clock are the parameters of `Regex`; times are whole numbers
-- of some unit.
pub mod Effects
pub mod Reference
pub mod Window
pub mod Complete
use dlpduck.Prelude.{
  ℕ, suc, ◌+◌, ◌-◌, String, Bool, true, false, Option, none, some, List, [], ◌∷◌, ◌++◌, ltb, leb,
  if◌then◌else◌, take, drop,
}
use dlpduck.Document.{Text, TextLine, DlpHit, DocumentText, full_text, line_at, offset_of}
use dlpduck.Unicode.{Unicode}
use dlpduck.Masking.{mask, correlate}
use dlpduck.Rules.{by_line, by_document, Rule, in_range}
use dlpduck.Engine.Effects.{
  timeout, index_error, ok, err, Span, Regex, Scan, pure, ◌>>=◌, timed, or_index_error,
}

-- The attributes of DLPEngine, and what `_hit` calls.
pub record DlpEngine (P : Type 0) : Type 0 where
  pub rules : List (Rule P)
  pub key : Text
  pub rule_budget_seconds : ℕ
  pub unicode : Unicode
  pub hmac : Text → Text → Text

pub record Budget : Type 0 where
  pub enabled : Bool
  pub deadline : ℕ

-- bisect.bisect_left(lines, x, key=...): how many leading lines have a number below `x`.
unfoldable pub bisect_left : List TextLine → ℕ → ℕ
bisect_left [] x = 0
bisect_left (line ∷ rest) x =
    let more = bisect_left rest x in if ltb line.line_number x then suc more else 0

-- m.group(0)
unfoldable pub group : Text → Span → Text
group text (start, stop) = take (stop - start) (drop start text)

-- `_hit`
unfoldable pub make_hit : {P : Type 0} → DlpEngine P → Rule P → TextLine → ℕ → ℕ → Text → DlpHit
make_hit engine rule line start stop raw = record {
  rule_id = rule.id;
  rule_name = rule.name;
  severity = rule.severity;
  action = rule.action;
  page_number = line.page_number;
  line_number = line.line_number;
  line_on_page = line.line_on_page;
  start = start;
  stop = stop;
  masked_text = mask engine.unicode raw rule.mask_keep;
  match_hmac = correlate engine.unicode engine.hmac raw engine.key;
  validator = rule.validator_name;
}

pub data ScanResult : Type 0 where
  hits : List DlpHit → ScanResult
  rule_budget_exceeded : String → ScanResult
  raised : ScanResult

module _ (env : Regex) where
  open env use {Pattern, finditer, search, now}

  -- `_Budget.__init__`: the clock is read only if the budget is enabled.
  unfoldable pub start_budget : ℕ → Scan Budget
  unfolding ◌>>=◌
  start_budget seconds t =
      if ltb 0 seconds
      then ok (record { enabled = true; deadline = now t + seconds }, suc t)
      else ok (record { enabled = false; deadline = 0 }, t)

  unfoldable pub remaining : Budget → Scan (Option ℕ)
  remaining budget t =
      if budget.enabled
      then if leb budget.deadline (now t)
        then err timeout
        else ok (some (budget.deadline - now t), suc t)
      else ok (none, t)

  -- The loop of `_context_near`.
  unfoldable pub near_loop : Pattern → Budget → ℕ → List TextLine → Scan Bool
  unfolding remaining ◌>>=◌
  near_loop ctx budget hi [] = pure false
  near_loop ctx budget hi (other ∷ rest) =
      let more = near_loop ctx budget hi rest in
      if ltb hi other.line_number then pure false else do
        left ← remaining budget
        found ← timed (search ctx other.text left)
        if found then pure true else more

  -- The first line of the window may lie before the document: `-` stops at 0, and no line number
  -- is below 0.
  unfoldable pub context_near :
      Rule Pattern → Pattern → DocumentText → TextLine → Budget → Scan Bool
  unfolding near_loop bisect_left
  context_near rule ctx text line budget =
      near_loop ctx budget (line.line_number + rule.ctx_window)
        (drop (bisect_left text.lines (line.line_number - rule.ctx_window)) text.lines)

  -- rule.ctx_regex is None, or _context_near(...)
  unfoldable pub in_context : Rule Pattern → DocumentText → TextLine → Budget → Scan Bool
  unfolding context_near
  in_context rule text line budget = elim rule.ctx_regex [
    | none ↦ pure true
    | some ctx ↦ context_near rule ctx text line budget
  ]

  module _ (engine : DlpEngine Pattern) (rule : Rule Pattern) (text : DocumentText)
      (budget : Budget) where
    -- The inner loop of `_scan_lines`, over the matches in one line.
    unfoldable pub line_matches : TextLine → List Span → Scan (List DlpHit)
    unfolding in_context group make_hit ◌>>=◌
    line_matches line [] = pure []
    line_matches line (m ∷ ms) =
        let more = line_matches line ms in
        let raw = group line.text m in
        if rule.validator raw
        then (do
          near ← in_context rule text line budget
          rest ← more
          pure (if near then make_hit engine rule line m.0 m.1 raw ∷ rest else rest))
        else more

    unfoldable pub scan_lines : List TextLine → Scan (List DlpHit)
    unfolding line_matches remaining in_range ◌>>=◌
    scan_lines [] = pure []
    scan_lines (line ∷ lines) =
        let more = scan_lines lines in
        if in_range rule line
        then (do
          left ← remaining budget
          ms ← timed (finditer rule.pattern line.text left)
          found ← line_matches line ms
          rest ← more
          pure (found ++ rest))
        else more

    -- The last lines of the loop of `_scan_document`: the offsets of a match are rebased onto its
    -- line. That the line does not begin after the match, so that `-` is exact, is `line_at`'s
    -- part.
    unfoldable pub rebased_hit : TextLine → Span → Text → Scan (List DlpHit) → Scan (List DlpHit)
    unfolding make_hit offset_of ◌>>=◌
    rebased_hit line m raw more = do
      base ← or_index_error (offset_of text line.line_number)
      rest ← more
      pure (make_hit engine rule line (m.0 - base) (m.1 - base) raw ∷ rest)

    -- The part of that loop's body from the test for a context on.
    unfoldable pub document_hit : TextLine → Span → Text → Scan (List DlpHit) → Scan (List DlpHit)
    unfolding in_context rebased_hit ◌>>=◌
    document_hit line m raw more = do
      near ← in_context rule text line budget
      if near then rebased_hit line m raw more else more

    -- The loop of `_scan_document`.
    unfoldable pub document_matches : List Span → Scan (List DlpHit)
    unfolding document_hit group in_range line_at full_text ◌>>=◌
    document_matches [] = pure []
    document_matches (m ∷ ms) =
        let more = document_matches ms in
        let raw = group (full_text text) m in
        if rule.validator raw
        then (do
          line ← or_index_error (line_at text m.0)
          if in_range rule line then document_hit line m raw more else more)
        else more

    unfoldable pub scan_document : Scan (List DlpHit)
    unfolding document_matches remaining ◌>>=◌
    scan_document = do
      left ← remaining budget
      ms ← timed (finditer rule.pattern (full_text text) left)
      document_matches ms

  -- The body of the `try` in `scan`, with the budget that a rule gets for the whole document.
  unfoldable pub scan_rule : DlpEngine Pattern → DocumentText → Rule Pattern → Scan (List DlpHit)
  unfolding start_budget scan_lines scan_document ◌>>=◌
  scan_rule engine text rule = do
    budget ← start_budget engine.rule_budget_seconds
    elim rule.scope [
      | by_line ↦ scan_lines engine rule text budget text.lines
      | by_document ↦ scan_document engine rule text budget
    ]

  -- The loop of `scan`: a TimeoutError in a rule becomes RuleBudgetExceeded, anything else escapes.
  unfoldable pub scan_rules :
      DlpEngine Pattern → DocumentText → List (Rule Pattern) → List DlpHit → ℕ → ScanResult
  unfolding scan_rule
  scan_rules engine text [] found t = hits found
  scan_rules engine text (rule ∷ rules) found t = elim (scan_rule engine text rule t) [
    | err timeout ↦ rule_budget_exceeded rule.id
    | err index_error ↦ raised
    | ok (new, t') ↦ scan_rules engine text rules (found ++ new) t'
  ]

  unfoldable pub scan : DlpEngine Pattern → DocumentText → ℕ → ScanResult
  unfolding scan_rules
  scan engine text t = scan_rules engine text engine.rules [] t
