-- ===== src/Reprocess/Evaluate.antt =====
-- `Reprocessor._evaluate` (dlpduck/reprocess.py).
pub mod Closed
use mathlib.Core.Option
use dlpduck.Prelude.{
  ℕ, String, Bool, true, false, not, ◌&&◌, Option, none, some, List, str_eq, concat, ◌==◌,
  if◌then◌else◌, length,
}
use dlpduck.Document.{Severity, DlpHit, DocumentText, highest_severity}
use dlpduck.Disposition.{Disposition, pending, archive, quarantined, failed, decide}
use dlpduck.Pipeline.Commit.{opt_str_eq}
use dlpduck.Pipeline.Process.{Scanned, found, budget_exceeded, scan_raised}
use dlpduck.Reprocess.Rows.{Row, same_hits}

pub data Direction : Type 0 where
  escalate deescalate changed unchanged content_unavailable error : Direction

pub data Mode : Type 0 where
  rules extract : Mode

-- `ReassessmentOutcome`
pub record ReassessmentOutcome : Type 0 where
  pub job_id : String
  pub direction : Direction
  pub old_disposition : Disposition
  pub new_disposition : Option Disposition
  pub old_severity : Option Severity
  pub new_severity : Option Severity
  pub old_hit_count : ℕ
  pub new_hit_count : ℕ
  pub detail : Option String

-- What `_evaluate` returns: the outcome and, where there is a verdict, what it rests on.
pub record Evaluated : Type 0 where
  pub outcome : ReassessmentOutcome
  pub new_hits : Option (List DlpHit)
  pub new_disposition : Option Disposition
  pub text : Option DocumentText

abbrev no_verdict : Row → Direction → Option String → Evaluated
no_verdict row direction detail = record {
  outcome = record {
    job_id = row.job_id;
    direction = direction;
    old_disposition = row.disposition;
    new_disposition = none;
    old_severity = row.highest_severity;
    new_severity = none;
    old_hit_count = row.hit_count;
    new_hit_count = 0;
    detail = detail;
  };
  new_hits = none;
  new_disposition = none;
  text = none;
}

-- `_error` and `_unavailable`, as `_evaluate` returns them.
abbrev pub failed_evaluation : Row → String → Evaluated
failed_evaluation row detail = no_verdict row error (some detail)

abbrev pub unavailable : Row → Evaluated
unavailable row = no_verdict row content_unavailable none

-- In the mode "rules", the quality of the extraction is what the row says of the first one.
abbrev pub recorded_quality : Row → DocumentText → DocumentText
recorded_quality row text = record text {
  degraded = row.degraded;
  page_count = row.page_count;
  ocr_page_count = row.ocr_page_count;
  failed_page_count = if opt_str_eq row.reason (some "degraded_extraction") then 1 else 0;
}

abbrev pub judged : Mode → Row → DocumentText → DocumentText
judged rules row text = recorded_quality row text
judged extract row text = text

abbrev pub is_quarantined : Disposition → Bool
is_quarantined pending = false
is_quarantined archive = false
is_quarantined quarantined = true
is_quarantined failed = false

abbrev pub same_disposition : Disposition → Disposition → Bool
same_disposition pending b = elim b [
  | pending ↦ true
  | archive ↦ false
  | quarantined ↦ false
  | failed ↦ false
]
same_disposition archive b = elim b [
  | pending ↦ false
  | archive ↦ true
  | quarantined ↦ false
  | failed ↦ false
]
same_disposition quarantined b = elim b [
  | pending ↦ false
  | archive ↦ false
  | quarantined ↦ true
  | failed ↦ false
]
same_disposition failed b = elim b [
  | pending ↦ false
  | archive ↦ false
  | quarantined ↦ false
  | failed ↦ true
]

abbrev bool_eq : Bool → Bool → Bool
bool_eq true b = b
bool_eq false b = not b

abbrev same_quality : Mode → Row → DocumentText → Bool
same_quality rules row text = true
same_quality extract row text =
    row.page_count == text.page_count
    && (row.ocr_page_count == text.ocr_page_count && bool_eq row.degraded text.degraded)

module _ (ruleset_version : String) where
  -- The verdict is the same, and so is all that it rests on.
  unfoldable pub same_verdict : Mode → Row → DocumentText → List DlpHit → Bool
  unfolding same_hits
  same_verdict mode row text hits =
      same_hits row.hits hits
      && (str_eq row.ruleset_version ruleset_version && same_quality mode row text)

  unfoldable pub direction_of : Mode → Row → DocumentText → List DlpHit → Disposition → Direction
  unfolding same_verdict
  direction_of mode row text hits new =
      if same_disposition row.disposition new
      then if same_verdict mode row text hits then unchanged else changed
      else if not (is_quarantined row.disposition) && is_quarantined new
      then escalate
      else if is_quarantined row.disposition && not (is_quarantined new)
      then deescalate
      else changed

  abbrev fresh_text : Mode → DocumentText → Option DocumentText
  fresh_text rules text = none
  fresh_text extract text = some text

  unfoldable pub verdict : Bool → Mode → Row → DocumentText → List DlpHit → Evaluated
  unfolding direction_of decide
  verdict on_degraded mode row text hits =
      let new = (decide (judged mode row text) hits on_degraded).0 in
      record {
        outcome = record {
          job_id = row.job_id;
          direction = direction_of mode row (judged mode row text) hits new;
          old_disposition = row.disposition;
          new_disposition = some new;
          old_severity = row.highest_severity;
          new_severity = highest_severity hits;
          old_hit_count = row.hit_count;
          new_hit_count = length hits;
          detail = none;
        };
        new_hits = some hits;
        new_disposition = some new;
        text = fresh_text mode text;
      }

  -- What a scan leads to.
  unfoldable pub conclude : Bool → Mode → Row → DocumentText → Scanned → Evaluated
  unfolding verdict
  conclude on_degraded mode row text (budget_exceeded rule_id) =
      failed_evaluation row (concat "rule " (concat rule_id " exceeded its time budget"))
  conclude on_degraded mode row text (scan_raised name) =
      failed_evaluation row (concat "scan failed: " name)
  conclude on_degraded mode row text (found hits) = verdict on_degraded mode row text hits

  unfoldable pub evaluate_text :
      Bool → (DocumentText → Scanned) → Mode → Row → Option DocumentText → Evaluated
  unfolding conclude
  evaluate_text on_degraded scan_text mode row none = unavailable row
  evaluate_text on_degraded scan_text mode row (some text) =
      conclude on_degraded mode row text (scan_text text)

  -- `content` is what the content store holds of the job, `reread` what extracting the archived PDF
  -- gives: nothing, where it is gone or cannot be read.
  unfoldable pub evaluate :
      Bool
      → (DocumentText → Scanned)
      → Mode
      → Row
      → Option DocumentText
      → Option DocumentText
      → Evaluated
  unfolding evaluate_text
  evaluate on_degraded scan_text rules row content reread =
      evaluate_text on_degraded scan_text rules row content
  evaluate on_degraded scan_text extract row content reread =
      evaluate_text on_degraded scan_text extract row reread
