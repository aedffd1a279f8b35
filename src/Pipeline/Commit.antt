-- ===== src/Pipeline/Commit.antt =====
-- `Pipeline.commit`, `commit_failed` and what they call (dlpduck/pipeline.py).
pub mod Steps
pub mod Underway
pub mod Writes
pub mod Emit
pub mod Once
pub mod Decided
pub mod Retried
pub mod Ends
use dlpduck.Prelude.{
  ℕ, String, Bool, true, false, not, ◌&&◌, ◌||◌, Option, none, some, List, [], ◌∷◌, ◌++◌, str_eq,
  leb, if◌then◌else◌, any_of,
}
use dlpduck.Document.{quarantine}
use dlpduck.Disposition.{Disposition, pending, archive, quarantined, failed}
use dlpduck.Run.{Run, pure, raise, gets, durable, ◌>>=◌, ◌>>◌}
use dlpduck.Pipeline.State.{
  JobContext, Step, assessed, pdf, audit_started, audit, stores, emit_started, emitted, has_step,
  Assessment, Manifest, Folder, archive_folder, quarantine_folder, JobEvent, completed, failure,
  received_again, received_while_processing, converted, metadata_rejected, plugin_failed, IndexRow,
  Stores, load_manifest,
}
use dlpduck.Pipeline.Process.{extracted, Plugin, log, run_plugins}

-- MANIFEST_VERSION
abbrev pub manifest_version : ℕ
manifest_version = 2

unfoldable pub with_step : Step → Manifest → Manifest
unfolding has_step
with_step s m = if has_step s m.steps then m else record m { steps = m.steps ++ s ∷ [] }

-- `_checkpoint`
unfoldable pub checkpoint : Manifest → Step → Run Stores Manifest
unfolding with_step ◌>>=◌
checkpoint m s = do
  durable (λ w. record w { manifest = some (with_step s m) })
  pure (with_step s m)

abbrev pub snapshot : String → JobContext → Assessment
snapshot ruleset_version ctx = record {
  text = ctx.text;
  hits = ctx.hits;
  disposition = ctx.disposition;
  reason = ctx.reason;
  metadata = ctx.metadata;
  audit_fields = ctx.audit_fields;
  ruleset_version = ruleset_version;
}

-- `_snapshot_assessment`
unfoldable pub snapshot_assessment : String → JobContext → Manifest → Run Stores Manifest
unfolding checkpoint
snapshot_assessment ruleset_version ctx m = elim m.assessment [
  | some a ↦ pure m
  | none ↦ checkpoint (record m { assessment = some (snapshot ruleset_version ctx) }) assessed
]

abbrev pub opt_str_eq : Option String → Option String → Bool
opt_str_eq none none = true
opt_str_eq none (some b) = false
opt_str_eq (some a) none = false
opt_str_eq (some a) (some b) = str_eq a b

abbrev pub not_before : Option ℕ → ℕ → Bool
not_before none day = true
not_before (some since) day = leb since day

-- An event "job.completed" of the job and the receipt, not older than `since`.
unfoldable pub is_completion : String → Option String → Option ℕ → JobEvent → Bool
is_completion job_id receipt since (completed day j r ctx) =
    not_before since day && str_eq j job_id && opt_str_eq r receipt
is_completion job_id receipt since (failure day j reason) = false
is_completion job_id receipt since (received_again day j r) = false
is_completion job_id receipt since (received_while_processing day j r) = false
is_completion job_id receipt since (converted day j r) = false
is_completion job_id receipt since (metadata_rejected day j c e) = false
is_completion job_id receipt since (plugin_failed day j p e) = false

-- manifest.get("receipt_id"), which counts as absent where it is empty.
abbrev pub has_receipt : Manifest → Bool
has_receipt m = elim m.receipt_id [ none ↦ false | some r ↦ not (str_eq r "") ]

-- `_completion_already_audited`
unfoldable pub completion_already_audited : JobContext → Manifest → Stores → Bool
unfolding has_step is_completion
completion_already_audited ctx m w =
    if not (has_receipt m)
    then false
    else if leb manifest_version m.version && not (has_step audit_started m.steps)
    then false
    else any_of (is_completion ctx.job_id m.receipt_id m.received_at) w.trail

abbrev pub folder_of : Disposition → Folder
folder_of d = elim d [
  | quarantined ↦ quarantine_folder
  | archive ↦ archive_folder
  | pending ↦ archive_folder
  | failed ↦ archive_folder
]

-- copy_durably(ctx.pdf_path, ...)
unfoldable pub copy_pdf : Folder → Stores → Stores
copy_pdf f w = record w { placed = f ∷ w.placed }

abbrev pub index_row : String → JobContext → Folder → IndexRow
index_row ruleset_version ctx folder = record {
  archive_path = folder;
  assessment_seq = 1;
  ruleset_version = ruleset_version;
  assessed = ctx;
}

abbrev pub ruleset_of : Manifest → String
ruleset_of m = elim m.assessment [ none ↦ "" | some a ↦ a.ruleset_version ]

-- shutil.rmtree(ctx.staging_dir), taken as one step.
unfoldable pub remove_staging : Stores → Stores
remove_staging w = record w { staged = false; manifest = none }

module _ (today : ℕ) (ruleset_version : String) (plugins : List Plugin) where
  -- The steps, each of them left out where the manifest has it.
  unfoldable pub place_pdf : Folder → Manifest → Run Stores Manifest
  unfolding has_step checkpoint copy_pdf ◌>>=◌
  place_pdf folder m =
      if has_step pdf m.steps then pure m else (do durable (copy_pdf folder); checkpoint m pdf)

  unfoldable pub audit_completion : JobContext → Manifest → Run Stores Manifest
  unfolding has_step completion_already_audited checkpoint ◌>>=◌
  audit_completion ctx m = do
    already ← gets (completion_already_audited ctx m)
    m₁ ← if has_step audit m.steps || already then pure m else (do
      m₀ ← checkpoint m audit_started
      durable (log (completed today ctx.job_id m.receipt_id ctx))
      pure m₀)
    checkpoint m₁ audit

  unfoldable pub write_stores : JobContext → Folder → Manifest → Run Stores Manifest
  unfolding has_step checkpoint ◌>>=◌
  write_stores ctx folder m = if has_step stores m.steps then pure m else (do
    durable (λ w. record w { index = some (index_row (ruleset_of m) ctx folder) })
    durable (λ w. record w { content = ctx.text })
    checkpoint m stores)

  abbrev pub deliver : String → Stores → Stores
  deliver name w = record w { delivered = w.delivered ++ name ∷ [] }

  unfoldable pub emit : JobContext → Manifest → Run Stores Manifest
  unfolding has_step checkpoint run_plugins ◌>>=◌
  emit ctx m =
      if has_step emit_started m.steps && not (has_step emitted m.steps)
      then raise "emit outcome uncertain; inspect staged job before retrying delivery"
      else if has_step emitted m.steps
      then pure m
      else (do
        m₀ ← checkpoint m emit_started
        run_plugins today ctx.job_id deliver plugins
        checkpoint m₀ emitted)

  -- self.operations.finish_receipt, for a manifest that has a receipt.
  unfoldable pub finish_receipt : String → Manifest → Run Stores Unit
  finish_receipt outcome m = elim m.receipt_id [
    | none ↦ pure tt
    | some r ↦
        if str_eq r ""
        then pure tt
        else durable (λ w. record w { finished = (r, outcome) ∷ w.finished })
  ]

  abbrev pub disposition_name : Disposition → String
  disposition_name d = elim d [
    | pending ↦ "pending"
    | archive ↦ "archive"
    | quarantined ↦ "quarantine"
    | failed ↦ "failed"
  ]

  -- The steps of `commit`, for a job that has a text.
  unfoldable pub commit_steps : JobContext → Run Stores Folder
  unfolding load_manifest snapshot_assessment place_pdf audit_completion write_stores emit
      finish_receipt remove_staging ◌>>=◌
  commit_steps ctx = do
    m ← gets load_manifest
    m₁ ← snapshot_assessment ruleset_version ctx m
    m₂ ← place_pdf (folder_of ctx.disposition) m₁
    m₃ ← audit_completion ctx m₂
    m₄ ← write_stores ctx (folder_of ctx.disposition) m₃
    m₅ ← emit ctx m₄
    finish_receipt (disposition_name ctx.disposition) m₅
    durable (λ w. record w { failed_folder = none })
    durable remove_staging
    pure (folder_of ctx.disposition)

  unfoldable pub commit : JobContext → Run Stores Folder
  unfolding commit_steps
  commit ctx = elim ctx.text [
    | none ↦ raise "commit called with no extracted text"
    | some text ↦ commit_steps ctx
  ]

  unfoldable pub commit_failed : JobContext → Run Stores Unit
  unfolding load_manifest snapshot_assessment finish_receipt remove_staging ◌>>=◌
  commit_failed ctx = do
    m ← gets load_manifest
    m₁ ← snapshot_assessment ruleset_version ctx m
    durable (λ w. record w { failed_folder = some none })
    durable (λ w. record w { failed_folder = some ctx.reason })
    finish_receipt "failed" m₁
    durable remove_staging
