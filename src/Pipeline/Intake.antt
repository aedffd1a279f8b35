-- ===== src/Pipeline/Intake.antt =====
-- The drop folder as the pipeline finds it, and what it reads there (dlpduck/pipeline.py,
-- dlpduck/operations.py).
use dlpduck.Prelude.{
  ℕ, String, Bool, true, false, ◌||◌, Option, none, some, List, [], ◌∷◌, ◌++◌, map, str_eq, ltb,
  ◌==◌, if◌then◌else◌, any_of,
}
use dlpduck.Metadata.{Members, Fields, Parsed}
use dlpduck.Run.{Progress, crashed, raised, going, Run}
use dlpduck.Pipeline.State.{JobEvent, Stores}
use dlpduck.Pipeline.Process.{log}

-- What stands at the path of a companion. A `swapped` one is a file when it is looked at and a
-- symlink when it is opened; one that is `held` has its identity, and what the parser makes of its
-- content where it is within the limit.
pub data Companion : Type 0 where
  link swapped : Companion
  held : ℕ → Option Parsed → Companion

pub record Receipt : Type 0 where
  pub id : String
  pub filename : String
  pub metadata : Fields

-- One path of the drop folder, its companion's, and the stores of the job that its content is of.
pub record Intake : Type 0 where
  pub source : Option ℕ  -- the identity (st_dev, st_ino) of the file at the path
  pub companion : Option Companion
  pub staged_companion : Option Parsed  -- STAGED_COMPANION, while the job is staged
  pub set_aside : Bool  -- STAGED_REJECTED_COMPANION
  pub receipts : List Receipt
  pub rejected : Option (Option String)  -- failed/<fingerprint> and the reason it holds
  pub stores : Stores

-- The document that is read: its content-derived id and what its Info dictionary says.
pub record Content : Type 0 where
  pub job_id : String
  pub info : Members

-- The outcome of `sniff`: a scanner image, anything else that it knows, or nothing.
pub data Sniffed : Type 0 where
  image other_format unknown : Sniffed

-- A conversion gives a PDF or raises.
pub data Conversion : Type 0 where
  as_pdf : Content → Conversion
  not_converted : String → Conversion

pub record OpenedFile : Type 0 where
  pub identity : ℕ
  pub st_size : ℕ
  pub read_length : ℕ  -- how much there was to read
  pub format : Sniffed
  pub image_suffix : Bool
  pub conversion : Conversion
  pub content : Content

pub data Arrived : Type 0 where
  a_symlink : Arrived
  a_file : OpenedFile → Arrived

-- `_Source`, or the exception
pub data Read : Type 0 where
  as_source : Content → ℕ → Bool → Read
  refused : String → Read

abbrev converted_or : ℕ → Conversion → Read
converted_or i (as_pdf c) = as_source c i true
converted_or i (not_converted e) = refused e

-- `_read_source`
unfoldable pub read_source : ℕ → Arrived → Read
read_source limit a_symlink = refused "UnsafeSourceFile"
read_source limit (a_file f) =
    if ltb limit f.st_size
    then refused "DocumentTooLarge"
    else if ltb limit f.read_length
    then refused "DocumentTooLarge"
    else elim f.format [
      | image ↦ converted_or f.identity f.conversion
      | other_format ↦ as_source f.content f.identity false
      | unknown ↦
          if f.image_suffix then refused "UnreadableImage" else as_source f.content f.identity false
    ]

-- CLAIM_REFUSALS
abbrev pub is_refusal : String → Bool
is_refusal e =
    str_eq e "DocumentTooLarge" || str_eq e "UnsafeSourceFile" || str_eq e "UnreadableImage"

abbrev pub log_in : JobEvent → Intake → Intake
log_in e w = record w { stores = log e w.stores }

-- `_unlink_if_same`
unfoldable pub unlink_source : ℕ → Intake → Intake
unlink_source opened w = elim w.source [
  | none ↦ w
  | some i ↦ if i == opened then record w { source = none } else w
]

abbrev pub is_same : ℕ → Companion → Bool
is_same opened link = false
is_same opened swapped = false
is_same opened (held i p) = i == opened

unfoldable pub unlink_companion : ℕ → Intake → Intake
unlink_companion opened w = elim w.companion [
  | none ↦ w
  | some c ↦ if is_same opened c then record w { companion = none } else w
]

-- `OperationalStore.receipt`, which leaves a receipt that exists alone.
unfoldable pub put_receipt : String → String → Intake → Intake
put_receipt r filename w =
    if any_of (λ (x : Receipt). str_eq x.id r) w.receipts then w else record w {
      receipts = w.receipts ++ record { id = r; filename = filename; metadata = [] } ∷ [];
    }

abbrev pub with_metadata : String → Fields → Receipt → Receipt
with_metadata r metadata x = if str_eq x.id r then record x { metadata = metadata } else x

-- `OperationalStore.receipt_metadata`
unfoldable pub receipt_metadata : String → Fields → Intake → Intake
receipt_metadata r metadata w = record w { receipts = map (with_metadata r metadata) w.receipts }

abbrev pub lift : {A : Type 0} → Intake → Progress Stores A → Progress Intake A
lift w (crashed s) = crashed (record w { stores = s })
lift w (raised e s) = raised e (record w { stores = s })
lift w (going a n s) = going a n (record w { stores = s })

-- A run on the stores of the job.
abbrev pub on_stores : {A : Type 0} → Run Stores A → Run Intake A
on_stores r n w = lift w (r n w.stores)
