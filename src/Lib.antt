-- ===== src/Lib.antt =====
-- Verification of DLPDuck: a watcher claims PDF files from a drop folder, extracts their text, runs
-- data-loss rules over it, archives or quarantines each document, and keeps a hash-chained record
-- of what it did. What is decided may be decided anew under later rules, and be carried out by a
-- person.
--
-- Parts, and the files that model them:
--   Document, Disposition, Masking, Validators, Rules: dlpduck/types.py, dlpduck/disposition.py,
--     dlpduck/masking.py, dlpduck/validators.py and the compiled rule of dlpduck/rules.py. A text is a
--     list of code points. `line_at` and `offset_of`, `decide`, `mask`, `luhn`, `nhs_mod11` and
--     `in_range` keep their names.
--     Masking/Reveal has `_rederive_hit_value` of dlpduck/console/app.py.
--     Rules/Make has `Rule.__init__` on values as YAML gives them, and Rules/Loading `load_ruleset`,
--     with fuel of one more than the number of files, which is enough as no chain of includes has a
--     file twice.
--   Engine: dlpduck/engine.py. `scan` runs every enabled rule by line or by document, under a time
--     budget. Engine/Effects has the clock and the package `regex` as parameters (`Regex`).
--   Audit: dlpduck/audit.py. Audit/Trail has the partitions and the checkpoint as they are on disk
--     under the write lock; Audit/Append, Audit/Redact, Audit/Verify and Audit/Trim have `append`,
--     `redact`, `verify` and `write_trim_checkpoint` with the deletion of dlpduck/retention.py.
--     A line of a file is blank, an event, or a record that cannot be read. SHA-256 over the
--     canonical JSON is a parameter, `digest`; where the code keeps a set of field names, there is
--     a list of them. The clock is a parameter of each call.
--   Run: code whose durable writes may be cut. A run is given the number of writes after which the
--     process dies; it then ends in `crashed`, or in `raised` by an exception, or goes on.
--     Run/Does says what a run does wherever it is cut, and Run/Costs how many writes it needs.
--   Pipeline: dlpduck/pipeline.py and dlpduck/plugins/base.py. Pipeline/State has the context, the
--     manifest and the stores of one job, whose lock is held; Pipeline/Process and Pipeline/Commit
--     have `process`, `commit` and `commit_failed`, with `_checkpoint`, `_snapshot_assessment` and
--     `_completion_already_audited`. The removal of the staging directory is one write.
--     Pipeline/Intake has one path of the drop folder with what is read there (`_read_source`), and the
--     receipts of dlpduck/operations.py; Pipeline/Claim has `claim`, `_claim_locked`,
--     `_record_duplicate_arrival` and `reject_at_claim`; Pipeline/Finish has `run_job`, `stage`,
--     `_finish_staged` and `_resume_one`. A file is known by its identity (device and inode), the
--     lock of a job is held by somebody else or not, and the parser's outcome is part of a companion.
--   Watcher: dlpduck/watcher.py and `SourceConfig.accepts` of dlpduck/config.py. `discover_ready` is
--     one poll over a listing of the folder; `_tracked` is a function of the name. Lower case, stems,
--     endings and the order of names are parameters (`Naming`).
--   Metadata: dlpduck/metadata.py. `allowlist`, `_resolve`, `_bounded`, `KeyValueTextParser` and the
--     guard of `XmlMetadataParser`; JSON printing, `str` methods and ElementTree are parameters.
--   Compaction: `plan_compaction`, `compact_partition` and `_compact` of dlpduck/index.py on the files of
--     a partition, each with its rows, cut at any write.
--   Content: dlpduck/content.py. Ids, `purge_content`, `has_content` and `purge_document` on the files
--     of the stores; Content/Purging has `purge_content` of dlpduck/pipeline.py, cut at any write.
--   Access: who may use the console. Access/Roles has dlpduck/console/rbac.py, Access/Sessions the
--     session files of dlpduck/operations.py, Access/Guard dlpduck/console/auth.py, Access/Csrf
--     dlpduck/console/csrf.py, and Access/Requests the requests of dlpduck/console/app.py that sign
--     in, sign out and revoke, in any order. A session is a cookie with any contents; argon2, SHA-256, `strip` and what an identity
--     provider claims are parameters. A set of roles is a sorted list.
--   Throttle: `LoginThrottle` of dlpduck/console/auth.py under its lock. Throttle/History has what the
--     table stands for, and Throttle/Refines the calls in their order.
--   Retention: dlpduck/retention.py. `plan_retention` over what each store holds, with dates as numbers
--     of days, and `apply_retention` as a run on the directories and the trail. The trail there is what
--     is appended: that removing a partition of the audit store takes its events along is in
--     Audit/Trim.
--   Reprocess: dlpduck/reprocess.py. Reprocess/Evaluate has `_evaluate` for one row,
--     Reprocess/Write has `_write_assessment`, `release` and `_destination_path`, and
--     Reprocess/Transition has `_commit_transition`, `_apply_transition` and `_recover_transitions`
--     for one job, where a move of the PDF is two writes, as `move_durably` of dlpduck/durability.py
--     has it. Columns that are only copied, and times, are left out of a row.
--   Tests: the theorems on concrete inputs, and runs of the model.
--
-- The watcher reports a file that is stable; `run_job` reads it, claims it into a staging directory
-- and finishes it, and a job that was staged is resumed after a crash.
-- The pipeline scans a text with the engine and decides with the disposition policy, as
-- reprocessing does again; both write through the audit trail and the index. The outcome of an
-- extraction, of a scan and of each plugin comes in as a value where a run is about what follows it.
--
-- Bounds: numbers are natural numbers, as the integers of the sources have no width. Every function
-- is structurally recursive, on fuel only where a ruleset is loaded. How many writes a run lives for
-- is arbitrary, or is bounded from below by a count of the steps, with two writes for each plugin.
-- The handler of an exception is given as many writes as the run that raised it was.
--
-- Not modelled: PDF and image libraries, OCR, DuckDB and Parquet, HTTP and its cookies, file locks,
-- threads and signals, which are third-party code or the operating system; the parsing of the
-- configuration, heartbeats, leases, the pages of the console that only show, and the command line,
-- which are input and output; the queue of failures, searches and the sweep over staged jobs, which
-- call the parts above or read what they keep; and companions that an older release staged.
mod Prelude
pub mod Document
pub mod Unicode
pub mod Masking
pub mod Disposition
pub mod Validators
pub mod Rules
pub mod Engine
pub mod Audit
pub mod Run
pub mod Pipeline
pub mod Metadata
pub mod Reprocess
pub mod Compaction
pub mod Content
pub mod Access
pub mod Throttle
pub mod Watcher
pub mod Retention
pub mod Tests
