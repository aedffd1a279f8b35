-- ===== src/Tests/Arrivals.antt =====
-- Files that arrive, on concrete inputs (dlpduck/pipeline.py).
use dlpduck.Prelude.{ℕ, ◌≡◌, refl, Bool, true, false, Option, none, some, List, [], ◌∷◌}
use dlpduck.Document.{DocumentText}
use dlpduck.Metadata.{no_member, Printing, malformed}
use dlpduck.Run.{Progress, crashed, raised, going}
use dlpduck.Run.Does.{Ended}
use dlpduck.Pipeline.State.{JobContext, Manifest, Folder, archive_folder, failure, Stores}
use dlpduck.Pipeline.Process.{extracted, Scanned, found, Plugin, process}
use dlpduck.Pipeline.Commit.{is_completion, folder_of, commit}
use dlpduck.Pipeline.Commit.Steps.{count_if}
use dlpduck.Pipeline.Commit.Retried.{IsClaimed}
use dlpduck.Pipeline.Intake.{
  held, Intake, Content, other_format, not_converted, OpenedFile, a_file, as_source, refused,
  read_source, unlink_source, unlink_companion, put_receipt, receipt_metadata,
}
use dlpduck.Pipeline.Claim.{Arrival, claim_locked}
use dlpduck.Pipeline.Claim.Staging.{IsFresh, Kept, ClaimedAs, claim_keeps_document}
use dlpduck.Pipeline.Finish.{resumed_context, resume_one, run_job}
use dlpduck.Pipeline.Finish.Whole.{IsHandled, IsOver}
use dlpduck.Pipeline.Finish.Resumed.{resume_one_whole}
use dlpduck.Pipeline.Finish.Arriving.{IsLocated, run_job_whole}

abbrev no_json : Printing
no_json = record { dumps = λ v. none; str = λ v. [] }

abbrev the_document : Content
the_document = record { job_id = "j"; info = no_member }

abbrev the_scan : OpenedFile
the_scan = record {
  identity = 7;
  st_size = 90;
  read_length = 90;
  format = other_format;
  image_suffix = false;
  conversion = not_converted "UnreadableImage";
  content = the_document;
}

abbrev as_arrival : Content → ℕ → Bool → Arrival
as_arrival c i conv = record {
  name = "scan.pdf";
  metadata_path = some "scan.xml";
  receipt_id = "r";
  opened = i;
  is_converted = conv;
  content = c;
}

abbrev empty_stores : Stores
empty_stores = record {
  staged = false;
  manifest = none;
  placed = [];
  trail = failure 4 "other" none ∷ [];
  index = none;
  content = none;
  delivered = [];
  finished = [];
  failed_folder = none;
}

abbrev dropped : Intake
dropped = record {
  source = some 7;
  companion = some (held 8 (some (malformed "no element found")));
  staged_companion = none;
  set_aside = false;
  receipts = [];
  rejected = none;
  stores = empty_stores;
}

abbrev read_text : DocumentText
read_text = record {
  lines = [];
  page_count = 1;
  ocr_page_count = 0;
  degraded = false;
  failed_page_count = 0;
  blank_page_count = 1;
}

abbrev no_hits : DocumentText → Scanned
no_hits t = found []

abbrev one_sink : List Plugin
one_sink = record { name = "siem"; critical = true; outcome = none } ∷ []

abbrev this_arrival : Arrival
this_arrival = as_arrival the_document 7 false

dropped-IsFresh : IsFresh 6 this_arrival none (some 7) dropped
unfolding count_if is_completion
dropped-IsFresh = (refl, refl, refl)

claim_keeps_document_example :
    Ended
      (Kept 6 this_arrival none (some 7))
      (λ ctx w'.
        IsClaimed ctx "r" (some 6) w'.stores
        × ClaimedAs 6 this_arrival none (some 7) no_json [] ctx w')
      (claim_locked no_json [] 6 this_arrival 3 dropped)
claim_keeps_document_example =
    claim_keeps_document no_json [] 6 this_arrival 3 dropped dropped-IsFresh

the_scan_read : read_source 100 (a_file the_scan) ≡ as_source the_document 7 false
unfolding read_source
the_scan_read = refl

too_large : read_source 80 (a_file the_scan) ≡ refused "DocumentTooLarge"
unfolding read_source
too_large = refl

abbrev ran : ℕ → Progress Intake JobContext
ran n =
    run_job 6 "rules" false no_hits [] one_sink no_json [] 100 false "f" as_arrival
      (a_file the_scan) (extracted read_text) n dropped

abbrev outcome_of_run : Progress Intake JobContext → Option Folder × Option ℕ
outcome_of_run (crashed w) = (none, w.source)
outcome_of_run (raised e w) = (none, w.source)
outcome_of_run (going ctx n w) = (some (folder_of ctx.disposition), w.source)

-- The run dies after one write, and is done with forty.
ran_once : outcome_of_run (ran 1) ≡ (none, some 7)
unfolding run_job
ran_once = refl

ran_whole : outcome_of_run (ran 40) ≡ (some archive_folder, none)
unfolding run_job put_receipt unlink_source receipt_metadata unlink_companion process commit
ran_whole = refl

run_job_whole_example :
    Ended
      (IsLocated 6 this_arrival (some 7))
      (λ ctx w'. IsOver "j" "r" (some 6) 6 "rules" false no_hits [] one_sink ctx w'.stores)
      (ran 40)
run_job_whole_example =
    run_job_whole 6 "rules" false no_hits [] one_sink no_json [] 100 "f" as_arrival
      (a_file the_scan) (extracted read_text) the_document 7 false 40 dropped the_scan_read refl
      dropped-IsFresh

abbrev waiting_manifest : Manifest
waiting_manifest = record {
  version = 2;
  receipt_id = some "r";
  received_at = some 5;
  steps = [];
  companion = none;
  metadata = some [];
  assessment = none;
}

abbrev waiting : Intake
waiting = record dropped {
  source = none;
  stores = record empty_stores { staged = true; manifest = some waiting_manifest };
}

abbrev resumed_job : JobContext
resumed_job = resumed_context 6 "rules" false no_hits [] one_sink "j" 0 [] waiting_manifest

waiting-IsClaimed : IsClaimed resumed_job "r" (some 5) waiting.stores
unfolding count_if is_completion
waiting-IsClaimed = record {
  manifest = waiting_manifest;
  on_disk = refl;
  present = refl;
  named = (refl, refl);
  fresh = refl;
  untold = refl;
  undelivered = refl;
}

resume_one_whole_example :
    Ended
      (λ w'. IsHandled "j" "r" (some 5) w'.stores)
      (λ o w'.
        (c : JobContext) × (o ≡ some c)
        × IsOver "j" "r" (some 5) 6 "rules" false no_hits [] one_sink c w'.stores)
      (resume_one 6 "rules" false no_hits [] one_sink true "j" "scan.pdf" 0 []
        (extracted read_text)
        40
        waiting)
resume_one_whole_example =
    resume_one_whole 6 "rules" false no_hits [] one_sink "j" "r" "scan.pdf" (some 5) 0 []
      (extracted read_text) waiting_manifest 40 waiting refl refl refl refl refl waiting-IsClaimed
