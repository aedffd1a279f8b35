-- ===== src/Reprocess/Write/Moves.antt =====
-- When a reassessment or a release moves a PDF (dlpduck/reprocess.py).
use dlpduck.Prelude.{
  ◌+◌, String, ◌≡◌, ◌≢◌, ◌⊎◌, inl, inr, true, false, ◌&&◌, ◌||◌, some, List, arith, Option-cases,
}
use dlpduck.Disposition.{Disposition, archive}
use dlpduck.Pipeline.State.{archive_folder, quarantine_folder}
use dlpduck.Reprocess.Rows.{Location, in_folder, Row}
use dlpduck.Reprocess.Evaluate.{Direction, escalate, same_disposition}
use dlpduck.Reprocess.Write.{
  Transition, Archive, is_file, latest_row, destination_path, is_deescalate, granted, release_row,
  release,
}

abbrev Moved : List Location → Row → Disposition → Direction → Row → Type 0
Moved disk prior new direction row =
    (row.assessment_seq ≡ prior.assessment_seq + 1)
    × (row.supersedes_seq ≡ some prior.assessment_seq)
    × ((row.archive_path ≡ prior.archive_path)
        ⊎ ((direction ≡ escalate) × (row.archive_path ≡ in_folder quarantine_folder)))
    × ((direction ≢ escalate)
        ⊎ ((row.archive_path ≡ in_folder quarantine_folder)
            ⊎ ((is_file disk prior.archive_path ≡ false)
                × (is_file disk (in_folder quarantine_folder) ≡ false))))
    × ((is_deescalate direction && same_disposition new archive ≡ false)
        ⊎ ((row.archive_path ≡ prior.archive_path) × (row.release_pending ≡ true)))

-- Why a release of the row is granted, and what becomes of the row.
abbrev pub Granted : List Location → Row → Transition → Type 0
Granted disk row t =
    (row.release_pending ≡ true)
    × (is_file disk row.archive_path || is_file disk (in_folder archive_folder) ≡ true)
    × (t.row.archive_path ≡ in_folder archive_folder)
    × (t.row.release_pending ≡ false)
    × (t.row.disposition ≡ row.disposition)
    × (t.row.hits ≡ row.hits)
    × (t.row.assessment_seq ≡ row.assessment_seq + 1)

release_row-Granted :
    (reason actor : String) (disk : List Location) (row : Row) (t : Transition)
    → release_row reason actor disk row ≡ granted t
    → Granted disk row t
unfolding release_row destination_path
release_row-Granted reason actor disk row t h = ground arith

-- A release is granted only where the newest assessment of the job waits for one and the PDF is
-- there; it leads to the archive, decides nothing anew, and no release waits after it.
pub release_granted :
    (reason actor : String) (a : Archive) (t : Transition)
    → release reason actor a ≡ granted t
    → (row : Row) × (latest_row a.rows ≡ some row) × Granted a.disk row t
unfolding release
release_granted reason actor a t h = elim (Option-cases (latest_row a.rows)) [
  | inl q ↦ ground arith
  | inr (row, q) ↦ (row, q, release_row-Granted reason actor a.disk row t (ground arith))
]
