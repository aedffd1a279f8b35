-- ===== src/Tests/Reassessments.antt =====
-- A document that is reassessed, quarantined and released (dlpduck/reprocess.py).
use dlpduck.Prelude.{◌≡◌, refl, ◌⊎◌, true, false, none, some, [], ◌∷◌}
use dlpduck.Document.{DocumentText}
use dlpduck.Disposition.{archive, quarantined}
use dlpduck.Run.Does.{Ended}
use dlpduck.Pipeline.State.{archive_folder, quarantine_folder}
use dlpduck.Pipeline.Process.{Scanned, found}
use dlpduck.Reprocess.Rows.{in_folder, Row}
use dlpduck.Reprocess.Evaluate.{escalate, rules, evaluate}
use dlpduck.Reprocess.Evaluate.Closed.{StaysClosed, evaluate_degraded}
use dlpduck.Reprocess.Write.{
  reassessed, released, Transition, Archive, latest_row, destination_path, reassessed_row, granted,
  release_row, release,
}
use dlpduck.Reprocess.Write.Moves.{Granted, release_granted}
use dlpduck.Reprocess.Transition.{
  same_event, moved, is_unwritten, apply_transition, commit_transition, recover_transition,
}
use dlpduck.Reprocess.Transition.Pending.{IsNew, carried_out, Recoverable}
use dlpduck.Reprocess.Transition.Recovered.{left_behind, recoveries, transition_atomic}

abbrev waiting_row : Row
waiting_row = record {
  job_id = "j";
  assessment_seq = 2;
  ruleset_version = "v2";
  supersedes_seq = some 1;
  release_pending = true;
  page_count = 1;
  ocr_page_count = 1;
  min_ocr_confidence = some 80;
  degraded = true;
  disposition = archive;
  reason = some "reprocessed:deescalate";
  archive_path = in_folder quarantine_folder;
  flagged = false;
  highest_severity = none;
  hit_count = 0;
  hits = [];
}

abbrev one_document : Archive
one_document = record {
  disk = in_folder quarantine_folder ∷ [];
  rows = waiting_row ∷ [];
  content = none;
  trail = [];
  transition = none;
}

abbrev one_page : DocumentText
one_page = record {
  lines = [];
  page_count = 1;
  ocr_page_count = 1;
  degraded = false;
  failed_page_count = 0;
  blank_page_count = 0;
}

abbrev no_hits : DocumentText → Scanned
no_hits text = found []

evaluate_degraded_example :
    StaysClosed (evaluate "v3" true no_hits rules waiting_row (some one_page) none)
evaluate_degraded_example = evaluate_degraded "v3" no_hits waiting_row (some one_page) none refl

abbrev back_in_quarantine : Transition
back_in_quarantine = record {
  prior_path = in_folder quarantine_folder;
  row =
      reassessed_row "v3" (in_folder quarantine_folder ∷ []) waiting_row [] quarantined escalate
        none;
  text = none;
  event = reassessed "j" escalate 2 3 archive quarantined false;
}

abbrev let_go : Transition
let_go = record {
  prior_path = in_folder quarantine_folder;
  row = record waiting_row {
    assessment_seq = 3;
    supersedes_seq = some 2;
    release_pending = false;
    archive_path = in_folder archive_folder;
    reason = some "released";
  };
  text = none;
  event =
      released "j" "false alarm" "admin" 2 3 (in_folder quarantine_folder)
        (in_folder archive_folder);
}

let_go-granted : release "false alarm" "admin" one_document ≡ granted let_go
unfolding release release_row destination_path latest_row
let_go-granted = refl

release_granted_example :
    (row : Row) × (latest_row one_document.rows ≡ some row) × Granted one_document.disk row let_go
release_granted_example = release_granted "false alarm" "admin" one_document let_go let_go-granted

let_go-IsNew : IsNew let_go one_document
unfolding is_unwritten same_event latest_row
let_go-IsNew = record { unwritten = refl; fresh = refl; unrecorded = refl; idle = refl }

transition_atomic_example :
    Ended
      (λ a. Recoverable let_go one_document a ⊎ (a ≡ carried_out let_go one_document))
      (λ u a. (a ≡ one_document) ⊎ (a ≡ carried_out let_go one_document))
      (recover_transition 9
        (recoveries (1 ∷ []) (left_behind (commit_transition let_go 2 one_document))))
transition_atomic_example = transition_atomic let_go one_document 2 (1 ∷ []) 9 let_go-IsNew

-- The recovery of this run returns, with the transition carried out.
let_go_recovered :
    left_behind (
      recover_transition 9
        (recoveries (1 ∷ []) (left_behind (commit_transition let_go 2 one_document))))
    ≡ carried_out let_go one_document
unfolding recoveries recover_transition commit_transition apply_transition moved
let_go_recovered = refl
