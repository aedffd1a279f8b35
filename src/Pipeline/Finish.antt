-- ===== src/Pipeline/Finish.antt =====
-- `run_job`, `stage`, `_finish_staged` and `_resume_one` (dlpduck/pipeline.py).
pub mod Processed
pub mod Failing
pub mod Whole
pub mod Arriving
pub mod Resumed
use dlpduck.Prelude.{
  ℕ, String, Bool, true, false, not, ◌&&◌, ◌||◌, Option, none, some, List, [], str_eq,
  if◌then◌else◌,
}
use dlpduck.Document.{Text, DocumentText}
use dlpduck.Disposition.{Disposition, pending, archive, quarantined, failed}
use dlpduck.Metadata.{Fields, Printing}
use dlpduck.Run.{Run, pure, raise, gets, durable, ◌>>=◌, ◌>>◌, handle}
use dlpduck.Pipeline.State.{
  JobContext, assessed, stores, emit_started, emitted, has_step, Assessment, Manifest,
  received_again, IndexRow, Stores, load_manifest,
}
use dlpduck.Pipeline.Process.{Extraction, Scanned, Plugin, log, process}
use dlpduck.Pipeline.Commit.{opt_str_eq, remove_staging, finish_receipt, commit, commit_failed}
use dlpduck.Pipeline.Intake.{
  Intake, Content, Arrived, Read, as_source, refused, read_source, is_refusal, put_receipt,
  on_stores,
}
use dlpduck.Pipeline.Claim.{Arrival, context_of, record_duplicate_arrival, claim, reject_at_claim}

abbrev pub is_failed : Disposition → Bool
is_failed d = elim d [ pending ↦ false | archive ↦ false | quarantined ↦ false | failed ↦ true ]

abbrev pub restored : JobContext → Assessment → JobContext
restored ctx a = record ctx {
  text = a.text;
  hits = a.hits;
  disposition = a.disposition;
  reason = a.reason;
  metadata = a.metadata;
  audit_fields = a.audit_fields;
}

module _ (today : ℕ) (rules : String) (on_degraded : Bool) (scan_text : DocumentText → Scanned)
    (enrichers sinks : List Plugin) where
  abbrev pub conclude : JobContext → Run Stores JobContext
  conclude ctx =
      if is_failed ctx.disposition
      then commit_failed today rules sinks ctx >> pure ctx
      else commit today rules sinks ctx >> pure ctx

  abbrev pub tell_duplicate : JobContext → Manifest → Option String → Run Stores Unit
  tell_duplicate ctx m none = pure tt
  tell_duplicate ctx m (some r) =
      if str_eq r ""
      then pure tt
      else finish_receipt today rules sinks "duplicate" m
        >> durable (log (received_again today ctx.job_id r))

  unfoldable pub finish_duplicate : JobContext → IndexRow → Run Stores JobContext
  unfolding ◌>>=◌
  finish_duplicate ctx prior = do
    m ← gets load_manifest
    tell_duplicate ctx m m.receipt_id
    durable remove_staging
    pure
        (record ctx { disposition = prior.assessed.disposition; reason = some "duplicate_receipt" })

  abbrev pub finish_by : JobContext → Extraction → Option IndexRow → Run Stores JobContext
  finish_by ctx extraction (some prior) = finish_duplicate ctx prior
  finish_by ctx extraction none =
      process today on_degraded scan_text enrichers ctx extraction >>= conclude

  -- `_finish_staged`
  unfoldable pub finish_staged : JobContext → Extraction → Run Stores JobContext
  unfolding finish_duplicate ◌>>=◌
  finish_staged ctx extraction = gets (λ w. w.index) >>= finish_by ctx extraction

  abbrev pub go_on_with : JobContext → Extraction → Option Assessment → Run Stores JobContext
  go_on_with ctx extraction none = finish_staged ctx extraction
  go_on_with ctx extraction (some a) = conclude (restored ctx a)

  -- The receipt of a job is on record once it is resumed.
  abbrev pub renew_receipt : String → Manifest → Option String → Run Intake Unit
  renew_receipt filename m none = pure tt
  renew_receipt filename m (some r) =
      if str_eq r "" then pure tt else durable (put_receipt r filename)

  abbrev pub resumed_context : String → ℕ → Fields → Manifest → JobContext
  resumed_context job_id mtime derived m = record {
    job_id = job_id;
    received_at = elim m.received_at [ none ↦ mtime | some day ↦ day ];
    text = none;
    hits = [];
    disposition = pending;
    reason = none;
    metadata = elim m.metadata [ none ↦ derived | some fields ↦ fields ];
    audit_fields = [];
  }

  -- `_resume_one`, for a directory whose name is the id of its document where `is_own` says so.
  -- What
  -- an older release has not recorded, the modification time and the metadata, comes in by its
  -- value.
  module _ (is_own : Bool) (job_id filename : String) (mtime : ℕ) (derived : Fields)
      (extraction : Extraction) where
    abbrev pub resume_with : Manifest → Run Intake (Option JobContext)
    resume_with m =
        if has_step emit_started m.steps && not (has_step emitted m.steps)
        then pure none
        else renew_receipt filename m m.receipt_id
          >> (on_stores
                (go_on_with (resumed_context job_id mtime derived m) extraction m.assessment)
              >>= λ ctx. pure (some ctx))

    unfoldable pub resume_one : Run Intake (Option JobContext)
    unfolding finish_staged ◌>>=◌
    resume_one = if is_own then gets (λ w. load_manifest w.stores) >>= resume_with else pure none

  module _ (py : Printing) (fields : List Text) (limit : ℕ) (contended : Bool)
      (fingerprint : String) (arrival : Content → ℕ → Bool → Arrival) where
    abbrev pub receive_again : Arrival → Option IndexRow → Run Intake JobContext
    receive_again a none = claim py fields today contended a
    receive_again a (some prior) =
        record_duplicate_arrival py fields today a
          (received_again today a.content.job_id a.receipt_id)
        >>= λ metadata. pure (record (context_of today a metadata (some "duplicate_receipt")) {
          disposition = prior.assessed.disposition;
        })

    abbrev pub try_read : Read → Run Intake JobContext
    try_read (refused e) = raise e
    try_read (as_source c i conv) = gets (λ w. w.stores.index) >>= receive_again (arrival c i conv)

    abbrev pub is_duplicate : JobContext → Bool
    is_duplicate ctx =
        opt_str_eq ctx.reason (some "duplicate_in_progress")
        || opt_str_eq ctx.reason (some "duplicate_receipt")

    abbrev pub after_claim : Extraction → JobContext → Run Intake JobContext
    after_claim extraction ctx =
        if is_duplicate ctx then pure ctx else on_stores (finish_staged ctx extraction)

    abbrev pub refuse : String → Run Intake JobContext
    refuse e =
        if is_refusal e then reject_at_claim py fields today fingerprint e >> raise e else raise e

    unfoldable pub run_job : Arrived → Extraction → Run Intake JobContext
    unfolding finish_staged claim record_duplicate_arrival reject_at_claim read_source ◌>>=◌
    run_job arrived extraction n w =
        handle (try_read (read_source limit arrived) n w) (after_claim extraction) refuse n

    abbrev try_claim : Read → Run Intake JobContext
    try_claim (refused e) = raise e
    try_claim (as_source c i conv) = claim py fields today contended (arrival c i conv)

    abbrev refuse_quietly : String → Run Intake (Option JobContext)
    refuse_quietly e =
        if is_refusal e then reject_at_claim py fields today fingerprint e >> pure none else raise e

    unfoldable pub stage : Arrived → Run Intake (Option JobContext)
    unfolding claim reject_at_claim read_source ◌>>=◌
    stage arrived n w =
        handle (try_claim (read_source limit arrived) n w) (λ ctx. pure (some ctx)) refuse_quietly n
