-- ===== src/Pipeline/Claim.antt =====
-- `Pipeline.claim`, `_claim_locked`, `_record_duplicate_arrival` and `reject_at_claim`
-- (dlpduck/pipeline.py).
pub mod Writes
pub mod Staging
pub mod Duplicates
use dlpduck.Prelude.{ℕ, String, Bool, true, Option, none, some, List, [], ◌∷◌, if◌then◌else◌}
use dlpduck.Document.{Text, info}
use dlpduck.Disposition.{pending}
use dlpduck.Metadata.{Members, Fields, merge, Printing, allowlist, Parsed, fields_of, malformed}
use dlpduck.Run.{Run, pure, raise, gets, durable, ◌>>=◌, ◌>>◌}
use dlpduck.Pipeline.State.{
  JobContext, stores, Manifest, JobEvent, failure, received_while_processing, converted,
  metadata_rejected,
}
use dlpduck.Pipeline.Commit.{manifest_version}
use dlpduck.Pipeline.Intake.{
  Companion, link, swapped, held, Intake, Content, refused, log_in, unlink_source, unlink_companion,
  put_receipt, receipt_metadata,
}

-- A file that was read, and what is drawn for it: the receipt's id.
pub record Arrival : Type 0 where
  pub name : String
  pub metadata_path : Option String
  pub receipt_id : String
  pub opened : ℕ
  pub is_converted : Bool
  pub content : Content

abbrev pub first_manifest : ℕ → Arrival → Manifest
first_manifest today a = record {
  version = manifest_version;
  receipt_id = some a.receipt_id;
  received_at = some today;
  steps = [];
  companion = none;
  metadata = none;
  assessment = none;
}

abbrev pub put_manifest : Manifest → Intake → Intake
put_manifest m w = record w { stores = record (w.stores) { manifest = some m } }

abbrev pub publish_pdf : Intake → Intake
publish_pdf w = record w { stores = record (w.stores) { staged = true } }

abbrev pub context_of : ℕ → Arrival → Fields → Option String → JobContext
context_of today a metadata reason = record {
  job_id = a.content.job_id;
  received_at = today;
  text = none;
  hits = [];
  disposition = pending;
  reason = reason;
  metadata = metadata;
  audit_fields = [];
}

module _ (py : Printing) (fields : List Text) (today : ℕ) where
  abbrev pub reject_metadata : Arrival → String → String → Run Intake Unit
  reject_metadata a name error =
      durable (log_in (metadata_rejected today a.content.job_id name error))

  -- What the parser made of a companion that is staged.
  abbrev pub read_companion : Arrival → Manifest → String → Parsed → Run Intake (Manifest × Members)
  read_companion a m name (fields_of ms) = pure (m, merge a.content.info ms)
  read_companion a m name (malformed error) = do
    reject_metadata a name error
    pure (m, a.content.info)

  unfoldable pub take_entry :
      Arrival → Manifest → String → Option Companion → Run Intake (Manifest × Members)
  unfolding ◌>>=◌
  take_entry a m name none = pure (m, a.content.info)
  take_entry a m name (some link) = do
    durable (λ w. record w { companion = none; set_aside = true })
    reject_metadata a name "symlink refused"
    pure (m, a.content.info)
  take_entry a m name (some swapped) = raise "UnsafeSourceFile"
  take_entry a m name (some (held i none)) = do
    durable (unlink_companion i)
    reject_metadata a name "exceeds limits.max_metadata_bytes"
    pure (m, a.content.info)
  take_entry a m name (some (held i (some parsed))) = do
    durable (λ w. record w { staged_companion = some parsed })
    durable (put_manifest (record m { companion = some name }))
    durable (unlink_companion i)
    read_companion a (record m { companion = some name }) name parsed

  abbrev pub take_path : Arrival → Manifest → Option String → Run Intake (Manifest × Members)
  take_path a m none = pure (m, a.content.info)
  take_path a m (some name) = gets (λ w. w.companion) >>= take_entry a m name

  unfoldable pub take_companion : Arrival → Manifest → Run Intake (Manifest × Members)
  unfolding take_entry
  take_companion a m = take_path a m a.metadata_path

  unfoldable pub settle_metadata : Arrival → Manifest × Members → Run Intake JobContext
  unfolding ◌>>=◌
  settle_metadata a (m, raw) = do
    durable (receipt_metadata a.receipt_id (allowlist py raw fields))
    durable (put_manifest (record m { metadata = some (allowlist py raw fields) }))
    pure (context_of today a (allowlist py raw fields) none)

  abbrev pub record_origin : Arrival → Run Intake Unit
  record_origin a =
      if a.is_converted
      then durable (log_in (converted today a.content.job_id a.receipt_id))
      else pure tt

  -- `_claim_locked`
  unfoldable pub claim_locked : Arrival → Run Intake JobContext
  unfolding take_companion settle_metadata ◌>>=◌
  claim_locked a = do
    durable (put_manifest (first_manifest today a))
    durable publish_pdf
    durable (unlink_source a.opened)
    durable (put_receipt a.receipt_id a.name)
    record_origin a
    r ← take_companion a (first_manifest today a)
    settle_metadata a r

  -- The companion of a duplicate: its identity where it was opened, and what is kept of it.
  unfoldable pub duplicate_entry :
      Arrival → String → Option Companion → Run Intake (Option ℕ × Members)
  unfolding ◌>>=◌
  duplicate_entry a name none = pure (none, a.content.info)
  duplicate_entry a name (some link) = do
    reject_metadata a name "symlink refused"
    pure (none, a.content.info)
  duplicate_entry a name (some swapped) = do
    reject_metadata a name "symlink refused"
    pure (none, a.content.info)
  duplicate_entry a name (some (held i none)) = pure (some i, a.content.info)
  duplicate_entry a name (some (held i (some (fields_of ms)))) =
      pure (some i, merge a.content.info ms)
  duplicate_entry a name (some (held i (some (malformed error)))) = do
    reject_metadata a name error
    pure (some i, a.content.info)

  abbrev pub unlink_symlink : Intake → Intake
  unlink_symlink w = elim w.companion [
    | none ↦ w
    | some link ↦ record w { companion = none }
    | some swapped ↦ record w { companion = none }
    | some (held i p) ↦ w
  ]

  abbrev pub unlink_duplicate : Option String → Option ℕ → Run Intake Unit
  unlink_duplicate none opened = pure tt
  unlink_duplicate (some name) (some i) = durable (unlink_companion i)
  unlink_duplicate (some name) none = durable unlink_symlink

  abbrev pub duplicate_path : Arrival → Option String → Run Intake (Option ℕ × Members)
  duplicate_path a none = pure (none, a.content.info)
  duplicate_path a (some name) = gets (λ w. w.companion) >>= duplicate_entry a name

  unfoldable pub settle_duplicate : Arrival → JobEvent → Option ℕ × Members → Run Intake Fields
  unfolding ◌>>=◌
  settle_duplicate a event (opened, raw) = do
    durable (put_receipt a.receipt_id a.name)
    durable (receipt_metadata a.receipt_id (allowlist py raw fields))
    durable (λ w. record w {
      stores = record (w.stores) { finished = (a.receipt_id, "duplicate") ∷ w.stores.finished };
    })
    durable (log_in event)
    durable (unlink_source a.opened)
    unlink_duplicate a.metadata_path opened
    pure (allowlist py raw fields)

  -- `_record_duplicate_arrival`
  unfoldable pub record_duplicate_arrival : Arrival → JobEvent → Run Intake Fields
  unfolding duplicate_entry settle_duplicate ◌>>=◌
  record_duplicate_arrival a event = duplicate_path a a.metadata_path >>= settle_duplicate a event

  -- `claim`, for a source that was read; whether somebody else holds the job's lock is `contended`.
  unfoldable pub claim : Bool → Arrival → Run Intake JobContext
  unfolding claim_locked record_duplicate_arrival ◌>>=◌
  claim contended a =
      if contended
      then (do
        metadata ←
            record_duplicate_arrival a
              (received_while_processing today a.content.job_id a.receipt_id)
        pure (context_of today a metadata (some "duplicate_in_progress")))
      else claim_locked a

  abbrev pub reject_entry : String → String → Option ℕ → Run Intake Unit
  reject_entry id reason none = raise "FileNotFoundError"
  reject_entry id reason (some i) =
      durable (λ w. record w { source = none; rejected = some none })
      >> (durable (λ w. record w { rejected = some (some reason) })
          >> durable (log_in (failure today id (some reason))))

  -- `reject_at_claim`, where `id` is the fingerprint of the file's name, size and time.
  unfoldable pub reject_at_claim : String → String → Run Intake Unit
  unfolding ◌>>=◌
  reject_at_claim id reason = gets (λ w. w.source) >>= reject_entry id reason
