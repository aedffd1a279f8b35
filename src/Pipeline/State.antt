-- ===== src/Pipeline/State.antt =====
-- What the pipeline keeps of one job: its context, its manifest and the stores
-- (dlpduck/pipeline.py,
-- dlpduck/types.py). Only this job's part of each store is here, since its lock is held.
use dlpduck.Prelude.{ℕ, String, Bool, true, false, Option, none, some, List, [], ◌==◌, any_of}
use dlpduck.Document.{DlpHit, DocumentText}
use dlpduck.Metadata.{Fields}
use dlpduck.Disposition.{Disposition}

pub record JobContext : Type 0 where
  pub job_id : String
  pub received_at : ℕ  -- the day, which is what the partitions are named for
  pub text : Option DocumentText
  pub hits : List DlpHit
  pub disposition : Disposition
  pub reason : Option String
  pub metadata : Fields
  pub audit_fields : List (String × String)

-- The entries of "steps" that the code writes.
pub data Step : Type 0 where
  assessed pdf audit_started audit stores emit_started emitted : Step

unfoldable pub step_number : Step → ℕ
step_number assessed = 0
step_number pdf = 1
step_number audit_started = 2
step_number audit = 3
step_number stores = 4
step_number emit_started = 5
step_number emitted = 6

unfoldable pub step_eq : Step → Step → Bool
unfolding step_number
step_eq s t = step_number s == step_number t

unfoldable pub has_step : Step → List Step → Bool
unfolding step_eq
has_step s ts = any_of (λ t. step_eq s t) ts

pub record Assessment : Type 0 where
  pub text : Option DocumentText
  pub hits : List DlpHit
  pub disposition : Disposition
  pub reason : Option String
  pub metadata : Fields
  pub audit_fields : List (String × String)
  pub ruleset_version : String

pub record Manifest : Type 0 where
  pub version : ℕ
  pub receipt_id : Option String
  pub received_at : Option ℕ
  pub steps : List Step
  pub companion : Option String  -- the name that the sender gave it
  pub metadata : Option Fields
  pub assessment : Option Assessment

abbrev pub empty_manifest : Manifest
empty_manifest = record {
  version = 1;
  receipt_id = none;
  received_at = none;
  steps = [];
  companion = none;
  metadata = none;
  assessment = none;
}

pub data Folder : Type 0 where
  archive_folder quarantine_folder : Folder

-- The events of the trail that the pipeline writes, with their day.
pub data JobEvent : Type 0 where
  completed : ℕ → String → Option String → JobContext → JobEvent
  failure : ℕ → String → Option String → JobEvent
  received_again : ℕ → String → String → JobEvent
  received_while_processing : ℕ → String → String → JobEvent
  converted : ℕ → String → String → JobEvent
  metadata_rejected : ℕ → String → String → String → JobEvent
  plugin_failed : ℕ → String → String → String → JobEvent

pub record IndexRow : Type 0 where
  pub archive_path : Folder
  pub assessment_seq : ℕ
  pub ruleset_version : String
  pub assessed : JobContext

pub record Stores : Type 0 where
  pub staged : Bool  -- the staging directory, with document.pdf
  pub manifest : Option Manifest  -- manifest.json in it
  pub placed : List Folder  -- the destinations that hold the PDF
  pub trail : List JobEvent
  pub index : Option IndexRow  -- assessment 1 of the job
  pub content : Option DocumentText
  pub delivered : List String  -- the emit plugins that were run, in order
  pub finished : List (String × String)  -- receipts and their outcomes
  pub failed_folder : Option (Option String)  -- failed/<job_id> and the reason it holds

-- `_manifest`
unfoldable pub load_manifest : Stores → Manifest
load_manifest w = elim w.manifest [ none ↦ empty_manifest | some m ↦ m ]

abbrev pub folder_eq : Folder → Folder → Bool
folder_eq archive_folder archive_folder = true
folder_eq archive_folder quarantine_folder = false
folder_eq quarantine_folder archive_folder = false
folder_eq quarantine_folder quarantine_folder = true

unfoldable pub holds_pdf : Folder → Stores → Bool
holds_pdf f w = any_of (λ g. folder_eq g f) w.placed
