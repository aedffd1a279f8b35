-- ===== src/Tests/Commits.antt =====
-- A job that is committed in three attempts, of which two die (dlpduck/pipeline.py).
use dlpduck.Prelude.{◌≡◌, refl, true, false, Option, none, some, List, [], ◌∷◌, arith}
use dlpduck.Document.{DocumentText}
use dlpduck.Disposition.{archive, quarantined}
use dlpduck.Run.Costs.{Uncut}
use dlpduck.Pipeline.Commit.Ends.{Excused, commit_ends}
use dlpduck.Run.{Progress, crashed, raised, going}
use dlpduck.Run.Does.{Ended}
use dlpduck.Pipeline.State.{
  JobContext, Assessment, Folder, quarantine_folder, failure, Stores, load_manifest,
}
use dlpduck.Pipeline.Process.{Plugin}
use dlpduck.Pipeline.Commit.{is_completion, commit}
use dlpduck.Pipeline.Commit.Steps.{count_if}
use dlpduck.Pipeline.Finish.{restored}
use dlpduck.Pipeline.Commit.Once.{IsCommitted}
use dlpduck.Pipeline.Commit.Retried.{
  Attempt, commit_again, IsClaimed, AtMostOnce, commit_exactly_once,
}

abbrev blank_text : DocumentText
blank_text = record {
  lines = [];
  page_count = 1;
  ocr_page_count = 0;
  degraded = false;
  failed_page_count = 0;
  blank_page_count = 1;
}

abbrev held_back : JobContext
held_back = record {
  job_id = "j";
  received_at = 5;
  text = some blank_text;
  hits = [];
  disposition = quarantined;
  reason = some "no_text_extracted";
  metadata = [];
  audit_fields = [];
}

abbrev sinks : List Plugin
sinks =
    record { name = "siem"; critical = true; outcome = none }
    ∷ record { name = "webhook"; critical = false; outcome = some "timeout" }
    ∷ []

-- The same plugins, where none raises.
abbrev quiet_sinks : List Plugin
quiet_sinks =
    record { name = "siem"; critical = true; outcome = none }
    ∷ record { name = "webhook"; critical = false; outcome = none }
    ∷ []

abbrev just_claimed : Stores
just_claimed = record {
  staged = true;
  manifest = some (record {
    version = 2;
    receipt_id = some "r";
    received_at = some 5;
    steps = [];
    companion = none;
    metadata = none;
    assessment = none;
  });
  placed = [];
  trail = failure 4 "other" none ∷ [];
  index = none;
  content = none;
  delivered = [];
  finished = [];
  failed_folder = none;
}

just_claimed-IsClaimed : IsClaimed held_back "r" (some 5) just_claimed
unfolding count_if is_completion
just_claimed-IsClaimed = record {
  manifest = _;
  on_disk = refl;
  present = refl;
  named = (refl, refl);
  fresh = refl;
  untold = refl;
  undelivered = refl;
}

abbrev held_by_day : Assessment
held_by_day = record {
  text = some blank_text;
  hits = [];
  disposition = quarantined;
  reason = some "no_text_extracted";
  metadata = [];
  audit_fields = [];
  ruleset_version = "rules";
}

abbrev let_through : Assessment
let_through = record held_by_day { disposition = archive; reason = none }

-- The first process dies after four writes, and the second, a day later, after three more. A third,
-- with another ruleset by which the document would be archived, ends the work, although one of its
-- plugins raises.
abbrev attempts : List Attempt
attempts =
    record { writes = 4; today = 6; rules = "rules"; plugins = quiet_sinks; found = held_by_day }
    ∷ record { writes = 3; today = 7; rules = "rules"; plugins = quiet_sinks; found = held_by_day }
    ∷ record { writes = 40; today = 7; rules = "newer"; plugins = sinks; found = let_through }
    ∷ []

abbrev three_attempts : Progress Stores Folder
three_attempts = commit_again held_back attempts just_claimed

abbrev returned_to : Progress Stores Folder → Option Folder
returned_to (crashed w) = none
returned_to (raised e w) = none
returned_to (going f n w) = some f

three_attempts-return : returned_to three_attempts ≡ some quarantine_folder
unfolding commit_again commit
three_attempts-return = refl

commit_exactly_once_example :
    Ended
      (AtMostOnce held_back "r" (some 5) ("siem" ∷ "webhook" ∷ []))
      (λ folder w'.
        (a : Assessment) × IsCommitted
          (restored held_back a)
          "r"
          (some 5)
          ("siem" ∷ "webhook" ∷ [])
          w')
      (commit_again held_back attempts just_claimed)
unfolding load_manifest
commit_exactly_once_example =
    commit_exactly_once held_back "r" (some 5) ("siem" ∷ "webhook" ∷ []) attempts just_claimed refl
      (
        (refl, refl, (blank_text, refl)),
        ((refl, refl, (blank_text, refl)), ((refl, refl, (blank_text, refl)), tt)),
      )
      just_claimed-IsClaimed refl

commit_ends_example : Uncut (Excused sinks) 0 (commit 6 "rules" sinks held_back 18 just_claimed)
commit_ends_example =
    commit_ends 6 "rules" sinks held_back blank_text 18 just_claimed refl (ground arith)
