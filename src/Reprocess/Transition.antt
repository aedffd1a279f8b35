-- ===== src/Reprocess/Transition.antt =====
-- `_commit_transition`, `_apply_transition` and `_recover_transitions` (dlpduck/reprocess.py), for
-- the
-- transition of one job. The search of the trail starts at the day on which the transition was
-- written, before which there is no event of it.
pub mod Facts
pub mod Pending
pub mod Atomic
pub mod Recovered
use mathlib.Core.Option
use dlpduck.Prelude.{
  Bool, true, false, not, ◌&&◌, none, some, List, [], ◌∷◌, ◌++◌, ltb, ◌==◌, if◌then◌else◌, keep_if,
  any_of,
}
use dlpduck.Run.{raised, going, Run, pure, gets, durable, ◌>>=◌, ◌>>◌}
use dlpduck.Reprocess.Rows.{Location, same_location, Row}
use dlpduck.Reprocess.Write.{
  TransitionEvent, reassessed, released, Transition, Archive, is_file, latest_row,
}

-- e.get("to_assessment_seq") and e.get("event")
unfoldable pub same_event : TransitionEvent → TransitionEvent → Bool
same_event (reassessed j d from to old new p) (reassessed j' d' from' to' old' new' p') = to == to'
same_event (released j r a from to old new) (released j' r' a' from' to' old' new') = to == to'
same_event (reassessed j d from to old new p) (released j' r' a' from' to' old' new') = false
same_event (released j r a from to old new) (reassessed j' d' from' to' old' new' p') = false

-- `copy_durably`, which replaces a file that is at the destination.
abbrev pub copied_to : Location → List Location → List Location
copied_to dest disk = if is_file disk dest then disk else dest ∷ disk

-- source.unlink()
abbrev pub unlinked : Location → List Location → List Location
unlinked src disk = keep_if (λ p. not (same_location p src)) disk

-- What `move_durably` leaves when it returns.
unfoldable pub moved : Location → Location → List Location → List Location
moved src dest disk = unlinked src (copied_to dest disk)

-- `move_durably`: the copy, and then the removal.
unfoldable pub move_durably : Location → Location → Run Archive Unit
unfolding ◌>>=◌
move_durably src dest = do
  durable (λ a. record a { disk = copied_to dest a.disk })
  durable (λ a. record a { disk = unlinked src a.disk })

abbrev pub moves : Location → Location → List Location → Bool
moves src dest disk = not (same_location src dest) && is_file disk src

-- The row is not in the index: `existing[0]["assessment_seq"] < row["assessment_seq"]`.
unfoldable pub is_unwritten : Row → List Row → Bool
unfolding latest_row
is_unwritten row rows = elim (latest_row rows) [
  | none ↦ true
  | some r ↦ ltb r.assessment_seq row.assessment_seq
]

-- `write_row` with `exclusive=True`
unfoldable pub write_row : Row → Run Archive Unit
write_row row n a =
    if any_of (λ r. r.assessment_seq == row.assessment_seq) a.rows
    then raised "AssessmentExists" a
    else durable (λ b. record b { rows = b.rows ++ row ∷ [] }) n a

module _ (recovering : Bool) (t : Transition) where
  unfoldable pub move_pdf : Run Archive Unit
  unfolding move_durably ◌>>=◌
  move_pdf = do
    there ← gets (λ a. moves t.prior_path t.row.archive_path a.disk)
    if there then move_durably t.prior_path t.row.archive_path else pure tt

  -- `_refresh_content_only`
  unfoldable pub refresh_content : Run Archive Unit
  refresh_content = elim t.text [
    | none ↦ pure tt
    | some text ↦ durable (λ a. record a { content = some text })
  ]

  unfoldable pub index_transition : Run Archive Unit
  unfolding is_unwritten write_row ◌>>=◌
  index_transition = do
    missing ← gets (λ a. is_unwritten t.row a.rows)
    if missing then write_row t.row else pure tt

  unfoldable pub audit_transition : Run Archive Unit
  unfolding same_event ◌>>=◌
  audit_transition = do
    already ← gets (λ a. recovering && any_of (λ e. same_event e t.event) a.trail)
    if already then pure tt else durable (λ a. record a { trail = a.trail ++ t.event ∷ [] })

  unfoldable pub apply_transition : Run Archive Unit
  unfolding move_pdf refresh_content index_transition audit_transition ◌>>=◌
  apply_transition = do
    move_pdf
    refresh_content
    index_transition
    audit_transition
    durable (λ a. record a { transition = none })

unfoldable pub commit_transition : Transition → Run Archive Unit
unfolding apply_transition ◌>>=◌
commit_transition t = do durable (λ a. record a { transition = some t }); apply_transition false t

-- `_recover_transitions`
unfoldable pub recover_transition : Run Archive Unit
unfolding apply_transition
recover_transition n a = elim a.transition [
  | none ↦ going tt n a
  | some t ↦ apply_transition true t n a
]
