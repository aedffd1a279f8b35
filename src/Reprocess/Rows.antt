-- ===== src/Reprocess/Rows.antt =====
-- The index rows that reprocessing reads and writes (dlpduck/reprocess.py, dlpduck/index.py), and
-- the
-- comparison of recorded hits.
use dlpduck.Prelude.{ℕ, String, Bool, true, false, ◌&&◌, Option, List, [], ◌∷◌, str_eq, ◌==◌}
use dlpduck.Document.{same_text, Severity, rank, Action, quarantine, flag, ignore, DlpHit}
use dlpduck.Disposition.{Disposition}
use dlpduck.Pipeline.State.{Folder, folder_eq}
use dlpduck.Pipeline.Commit.{opt_str_eq}

-- Where a PDF may stand: at its place in a destination, or where an older configuration put it.
pub data Location : Type 0 where
  in_folder : Folder → Location
  elsewhere : String → Location

abbrev pub same_location : Location → Location → Bool
same_location (in_folder f) (in_folder g) = folder_eq f g
same_location (in_folder f) (elsewhere p) = false
same_location (elsewhere p) (in_folder g) = false
same_location (elsewhere p) (elsewhere q) = str_eq p q

-- A row of the index. Times are left out.
pub record Row : Type 0 where
  pub job_id : String
  pub assessment_seq : ℕ
  pub ruleset_version : String
  pub supersedes_seq : Option ℕ
  pub release_pending : Bool
  pub page_count : ℕ
  pub ocr_page_count : ℕ
  pub min_ocr_confidence : Option ℕ
  pub degraded : Bool
  pub disposition : Disposition
  pub reason : Option String
  pub archive_path : Location
  pub flagged : Bool
  pub highest_severity : Option Severity
  pub hit_count : ℕ
  pub hits : List DlpHit

abbrev action_number : Action → ℕ
action_number quarantine = 0
action_number flag = 1
action_number ignore = 2

-- The hits as `hit_record` stores them, field by field.
unfoldable pub same_hit : DlpHit → DlpHit → Bool
unfolding rank
same_hit a b =
    str_eq a.rule_id b.rule_id
    && (str_eq a.rule_name b.rule_name
        && (rank a.severity == rank b.severity
            && (action_number a.action == action_number b.action
                && (a.page_number == b.page_number
                    && (a.line_number == b.line_number
                        && (a.line_on_page == b.line_on_page
                            && (a.start == b.start
                                && (a.stop == b.stop
                                    && (same_text a.masked_text b.masked_text
                                        && (same_text a.match_hmac b.match_hmac
                                            && opt_str_eq a.validator b.validator))))))))))

unfoldable pub same_hits : List DlpHit → List DlpHit → Bool
unfolding same_hit
same_hits [] [] = true
same_hits [] (b ∷ bs) = false
same_hits (a ∷ rest) [] = false
same_hits (a ∷ rest) (b ∷ bs) = same_hit a b && same_hits rest bs
