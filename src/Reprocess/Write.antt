-- ===== src/Reprocess/Write.antt =====
-- `_write_assessment`, `release` and `_destination_path` (dlpduck/reprocess.py): the transition
-- that
-- each of them decides on.
pub mod Moves
use dlpduck.Prelude.{
  ℕ, ◌+◌, String, Bool, true, false, not, ◌&&◌, ◌||◌, Option, none, some, List, [], ◌∷◌, concat,
  ltb, ◌==◌, if◌then◌else◌, length, any_of,
}
use dlpduck.Document.{DlpHit, DocumentText, min_ocr_confidence, highest_severity, flagged}
use dlpduck.Disposition.{Disposition, pending, archive}
use dlpduck.Pipeline.State.{Folder, archive_folder, quarantine_folder, completed}
use dlpduck.Reprocess.Rows.{Location, in_folder, same_location, Row}
use dlpduck.Reprocess.Evaluate.{
  Direction, escalate, deescalate, changed, unchanged, content_unavailable, error, same_disposition,
}

-- The event that a transition appends, as "job.reassessed" or "job.released".
pub data TransitionEvent : Type 0 where
  reassessed : String → Direction → ℕ → ℕ → Disposition → Disposition → Bool → TransitionEvent
  released : String → String → String → ℕ → ℕ → Location → Location → TransitionEvent

pub record Transition : Type 0 where
  pub prior_path : Location
  pub row : Row
  pub text : Option DocumentText
  pub event : TransitionEvent

-- The PDFs of the job that are on disk, its rows in the index, its content, the events of its
-- transitions, and the file of a transition that is being carried out.
pub record Archive : Type 0 where
  pub disk : List Location
  pub rows : List Row
  pub content : Option DocumentText
  pub trail : List TransitionEvent
  pub transition : Option Transition

abbrev pub is_file : List Location → Location → Bool
is_file disk p = any_of (λ q. same_location q p) disk

abbrev pub later : Row → Option Row → Row
later r none = r
later r (some s) = if ltb r.assessment_seq s.assessment_seq then s else r

-- `latest_index_rows` for one job: the row with the highest number.
unfoldable pub latest_row : List Row → Option Row
latest_row [] = none
latest_row (r ∷ rs) = some (later r (latest_row rs))

-- `_destination_path`
unfoldable pub destination_path : List Location → Location → Folder → Location
destination_path disk current into =
    if is_file disk current || is_file disk (in_folder into) then in_folder into else current

abbrev pub is_escalate : Direction → Bool
is_escalate escalate = true
is_escalate deescalate = false
is_escalate changed = false
is_escalate unchanged = false
is_escalate content_unavailable = false
is_escalate error = false

abbrev pub is_deescalate : Direction → Bool
is_deescalate escalate = false
is_deescalate deescalate = true
is_deescalate changed = false
is_deescalate unchanged = false
is_deescalate content_unavailable = false
is_deescalate error = false

direction_name : Direction → String
direction_name escalate = "escalate"
direction_name deescalate = "deescalate"
direction_name changed = "changed"
direction_name unchanged = "unchanged"
direction_name content_unavailable = "content_unavailable"
direction_name error = "error"

-- A value of the fresh text where there is one, and else of the prior row.
abbrev from_text {ℓ} : {A : Type ℓ} → (DocumentText → A) → A → Option DocumentText → A
from_text f old none = old
from_text f old (some t) = f t

abbrev suffix : Option DocumentText → String
suffix none = ""
suffix (some t) = ":extract"

unfoldable pub reassessed_row :
    String → List Location → Row → List DlpHit → Disposition → Direction → Option DocumentText → Row
unfolding direction_name destination_path
reassessed_row ruleset_version disk prior hits new direction fresh = record {
  job_id = prior.job_id;
  assessment_seq = prior.assessment_seq + 1;
  ruleset_version = ruleset_version;
  supersedes_seq = some prior.assessment_seq;
  release_pending =
      same_disposition new archive && (is_deescalate direction || prior.release_pending);
  page_count = from_text (λ t. t.page_count) prior.page_count fresh;
  ocr_page_count = from_text (λ t. t.ocr_page_count) prior.ocr_page_count fresh;
  min_ocr_confidence = from_text min_ocr_confidence prior.min_ocr_confidence fresh;
  degraded = from_text (λ t. t.degraded) prior.degraded fresh;
  disposition = new;
  reason = some (concat "reprocessed:" (concat (direction_name direction) (suffix fresh)));
  archive_path =
      if is_escalate direction
      then destination_path disk prior.archive_path quarantine_folder
      else prior.archive_path;
  flagged = flagged hits;
  highest_severity = highest_severity hits;
  hit_count = length hits;
  hits = hits;
}

-- `current and current[0]["assessment_seq"] != prior["assessment_seq"]`
abbrev pub is_superseded : Row → Option Row → Bool
is_superseded prior none = false
is_superseded prior (some r) = not (r.assessment_seq == prior.assessment_seq)

-- `_write_assessment`; nothing where it raises `AssessmentExists`.
unfoldable pub write_assessment :
    String
    → Archive
    → Row
    → List DlpHit
    → Disposition
    → Direction
    → Option DocumentText
    → Option Transition
unfolding reassessed_row latest_row
write_assessment ruleset_version a prior hits new direction fresh =
    let row = reassessed_row ruleset_version a.disk prior hits new direction fresh in
    if is_superseded prior (latest_row a.rows)
    then none
    else some (record {
      prior_path = prior.archive_path;
      row = row;
      text = fresh;
      event =
          reassessed prior.job_id direction prior.assessment_seq row.assessment_seq
            prior.disposition new row.release_pending;
    })

pub data ReleaseResult : Type 0 where
  denied : String → ReleaseResult
  granted : Transition → ReleaseResult

unfoldable pub release_row : String → String → List Location → Row → ReleaseResult
unfolding destination_path
release_row reason actor disk row =
    let new_path = destination_path disk row.archive_path archive_folder in
    if not row.release_pending
    then denied "no release is pending for this job"
    else if not (is_file disk row.archive_path) && not (is_file disk (in_folder archive_folder))
    then denied "original PDF is missing; release cannot be completed"
    else granted (record {
      prior_path = row.archive_path;
      row = record row {
        assessment_seq = row.assessment_seq + 1;
        supersedes_seq = some row.assessment_seq;
        release_pending = false;
        archive_path = new_path;
        reason = some "released";
      };
      text = none;
      event =
          released row.job_id reason actor row.assessment_seq (row.assessment_seq + 1)
            row.archive_path new_path;
    })

-- `release`
unfoldable pub release : String → String → Archive → ReleaseResult
unfolding release_row latest_row
release reason actor a = elim (latest_row a.rows) [
  | none ↦ denied "job not found"
  | some row ↦ release_row reason actor a.disk row
]
