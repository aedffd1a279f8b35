-- ===== src/Reprocess/Transition/Facts.antt =====
-- The tests that a transition makes, before and after each of its steps (dlpduck/reprocess.py).
use mathlib.Core.Path.{subst}
use dlpduck.Prelude.{
  ◌≤◌, String, ◌≡◌, refl, sym, ap, ◌∙◌, inl, inr, true, false, not, some, List, [], ◌∷◌, ◌++◌,
  arith, str_eq, eq_iff, ltb, Bool-cases, keep_if,
}
use dlpduck.Pipeline.State.{archive_folder, quarantine_folder}
use dlpduck.Reprocess.Rows.{Location, in_folder, elsewhere, same_location, Row}
use dlpduck.Reprocess.Write.{TransitionEvent, reassessed, released, is_file, latest_row}
use dlpduck.Reprocess.Transition.{same_event, copied_to, unlinked, moved, moves, is_unwritten}

pub str_eq_sym : (p q : String) → str_eq p q ≡ str_eq q p
str_eq_sym p q = elim (Bool-cases (str_eq p q)) [
  | inl e ↦ subst (λ x. str_eq p x ≡ str_eq x p) ((eq_iff p q).0 e) refl
  | inr e ↦ elim (Bool-cases (str_eq q p)) [
    | inl f ↦ cc (e, (eq_iff p q).1 (sym ((eq_iff q p).0 f)))
    | inr f ↦ e ∙ sym f
  ]
]

pub same_location_sym : (p q : Location) → same_location p q ≡ same_location q p
same_location_sym (in_folder archive_folder) (in_folder archive_folder) = refl
same_location_sym (in_folder archive_folder) (in_folder quarantine_folder) = refl
same_location_sym (in_folder quarantine_folder) (in_folder archive_folder) = refl
same_location_sym (in_folder quarantine_folder) (in_folder quarantine_folder) = refl
same_location_sym (in_folder f) (elsewhere q) = refl
same_location_sym (elsewhere p) (in_folder g) = refl
same_location_sym (elsewhere p) (elsewhere q) = str_eq_sym p q

pub gone :
    (src : Location) (disk : List Location)
    → is_file (keep_if (λ p. not (same_location p src)) disk) src ≡ false
gone src [] = refl
gone src (p ∷ ps) = ground (arith, gone src ps)

same_location_refl : (p : Location) → same_location p p ≡ true
same_location_refl (in_folder archive_folder) = refl
same_location_refl (in_folder quarantine_folder) = refl
same_location_refl (elsewhere p) = (eq_iff p p).1 refl

pub copied_to_twice :
    (dest : Location) (disk : List Location)
    → copied_to dest (copied_to dest disk) ≡ copied_to dest disk
copied_to_twice dest disk = elim (Bool-cases (is_file disk dest)) [
  | inl e ↦ rw (e, e) refl
  | inr e ↦ rw (e, same_location_refl dest) refl
]

pub moved_twice :
    (src dest : Location) (disk : List Location)
    → moved src dest (copied_to dest disk) ≡ moved src dest disk
unfolding moved
moved_twice src dest disk = ap (unlinked src) (copied_to_twice dest disk)

-- A copy leaves the source where it is.
pub moves-copied_to :
    (src dest : Location) (disk : List Location)
    → moves src dest disk ≡ true
    → moves src dest (copied_to dest disk) ≡ true
moves-copied_to src dest disk m = ground (arith, m)

pub moves_once :
    (src dest : Location) (disk : List Location)
    → moves src dest disk ≡ true
    → moves src dest (moved src dest disk) ≡ false
unfolding moved
moves_once src dest disk m =
    ground (arith, gone src (copied_to dest disk), same_location_sym src dest)

pub same_event_refl : (e : TransitionEvent) → same_event e e ≡ true
unfolding same_event
same_event_refl (reassessed j d from to old new p) = ground arith
same_event_refl (released j r a from to old new) = ground arith

pub latest_row-snoc :
    (row : Row) (rows : List Row)
    → (r : Row) × (latest_row (rows ++ row ∷ []) ≡ some r) × (row.assessment_seq ≤ r.assessment_seq)
unfolding latest_row
latest_row-snoc row [] = (row, refl, ground arith)
latest_row-snoc row (s ∷ rows) =
    let (r, e, l) = latest_row-snoc row rows in
    elim (Bool-cases (ltb s.assessment_seq r.assessment_seq)) [
      | inl q ↦ (r, rw (e, q) refl, l)
      | inr q ↦ (s, rw (e, q) refl, ground arith)
    ]

pub written_now : (row : Row) (rows : List Row) → is_unwritten row (rows ++ row ∷ []) ≡ false
unfolding is_unwritten
written_now row rows =
    let (r, e, l) = latest_row-snoc row rows in rw (e, is_unwritten) (ground arith)
