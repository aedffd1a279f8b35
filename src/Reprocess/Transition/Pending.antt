-- ===== src/Reprocess/Transition/Pending.antt =====
-- A transition of which some parts are done, the move of the PDF perhaps half (dlpduck/reprocess.py).
use dlpduck.Prelude.{
  ◌≡◌, refl, sym, ◌∙◌, ◌⊎◌, inl, inr, Bool, true, false, ◌&&◌, Option, none, some, List, [], ◌∷◌,
  ◌++◌, arith, ◌==◌, if◌then◌else◌, Bool-cases, any_of, any_of-append,
}
use dlpduck.Document.{DocumentText}
use dlpduck.Reprocess.Rows.{Location}
use dlpduck.Reprocess.Write.{Transition, Archive}
use dlpduck.Reprocess.Transition.{same_event, copied_to, moved, moves, is_unwritten}
use dlpduck.Reprocess.Transition.Facts.{
  copied_to_twice, moved_twice, moves-copied_to, moves_once, same_event_refl, written_now,
}

-- `t` is made from the archive `old`: its row is newer than any of the job, and its event is not on
-- the trail.
pub record IsNew (t : Transition) (old : Archive) : Type 0 where
  pub unwritten : is_unwritten t.row old.rows ≡ true
  pub fresh : any_of (λ r. r.assessment_seq == t.row.assessment_seq) old.rows ≡ false
  pub unrecorded : any_of (λ e. same_event e t.event) old.trail ≡ false
  pub idle : old.transition ≡ none

module _ (t : Transition) (old : Archive) where
  abbrev pub disk_after : List Location
  disk_after =
      if moves t.prior_path t.row.archive_path old.disk
      then moved t.prior_path t.row.archive_path old.disk
      else old.disk

  -- The PDF is copied to its destination and still at its source.
  abbrev pub disk_between : List Location
  disk_between =
      if moves t.prior_path t.row.archive_path old.disk
      then copied_to t.row.archive_path old.disk
      else old.disk

  abbrev pub content_after : Option DocumentText
  content_after = elim t.text [ none ↦ old.content | some text ↦ some text ]

  -- The archive with the transition carried out.
  abbrev pub carried_out : Archive
  carried_out = record {
    disk = disk_after;
    rows = old.rows ++ t.row ∷ [];
    content = content_after;
    trail = old.trail ++ t.event ∷ [];
    transition = none;
  }

  abbrev pub OneOf : {A : Type 0} → A → A → A → Type 0
  OneOf before after x = (x ≡ before) ⊎ (x ≡ after)

  -- Some of it is done, each part wholly or not at all, but for the PDF, which may be in both places.
  pub record IsPending (a : Archive) : Type 0 where
    pub noted : a.transition ≡ some t
    pub disk : (a.disk ≡ old.disk) ⊎ OneOf disk_between disk_after a.disk
    pub content : OneOf old.content content_after a.content
    pub rows : OneOf old.rows (old.rows ++ t.row ∷ []) a.rows
    pub trail : OneOf old.trail (old.trail ++ t.event ∷ []) a.trail

  abbrev pub Recoverable : Archive → Type 0
  Recoverable a = (a ≡ old) ⊎ IsPending a

  -- A transition that is carried out for the first time has no event yet.
  abbrev pub Ready : Bool → Archive → Type 0
  Ready recovering a = (recovering ≡ true) ⊎ (a.trail ≡ old.trail)

  disk_after-moves :
      moves t.prior_path t.row.archive_path old.disk ≡ true
      → disk_after ≡ moved t.prior_path t.row.archive_path old.disk
  disk_after-moves m = rw m refl

  disk_after-stays : moves t.prior_path t.row.archive_path old.disk ≡ false → disk_after ≡ old.disk
  disk_after-stays m = rw m refl

  disk_between-moves :
      moves t.prior_path t.row.archive_path old.disk ≡ true
      → disk_between ≡ copied_to t.row.archive_path old.disk
  disk_between-moves m = rw m refl

  disk_between-stays :
      moves t.prior_path t.row.archive_path old.disk ≡ false → disk_between ≡ old.disk
  disk_between-stays m = rw m refl

  pub disk_done :
      (a : Archive)
      → IsPending a
      → moves t.prior_path t.row.archive_path a.disk ≡ false
      → a.disk ≡ disk_after
  disk_done a p m = elim p.disk [
    | inl e ↦ e ∙ rw (← e, m) refl
    | inr (inl e) ↦ elim (Bool-cases (moves t.prior_path t.row.archive_path old.disk)) [
      | inl q ↦
          cc
            (m, e, disk_between-moves q, moves-copied_to t.prior_path t.row.archive_path old.disk q)
      | inr q ↦ e ∙ disk_between-stays q ∙ sym (disk_after-stays q)
    ]
    | inr (inr e) ↦ e
  ]

  -- The first half of a move that is still to be done.
  pub disk_halfway :
      (a : Archive)
      → IsPending a
      → moves t.prior_path t.row.archive_path a.disk ≡ true
      → copied_to t.row.archive_path a.disk ≡ disk_between
  disk_halfway a p m = elim (Bool-cases (moves t.prior_path t.row.archive_path old.disk)) [
    | inl q ↦ elim p.disk [
      | inl e ↦ rw e (sym (disk_between-moves q))
      | inr (inl e) ↦
          rw (e ∙ disk_between-moves q)
            (copied_to_twice t.row.archive_path old.disk ∙ sym (disk_between-moves q))
      | inr (inr e) ↦
          cc (moves_once t.prior_path t.row.archive_path old.disk q, m, e, disk_after-moves q)
    ]
    | inr q ↦ elim p.disk [
      | inl e ↦ cc (m, e, q)
      | inr (inl e) ↦ cc (m, e, disk_between-stays q, q)
      | inr (inr e) ↦ cc (m, e, disk_after-stays q, q)
    ]
  ]

  pub disk_todo :
      (a : Archive)
      → IsPending a
      → moves t.prior_path t.row.archive_path a.disk ≡ true
      → moved t.prior_path t.row.archive_path a.disk ≡ disk_after
  disk_todo a p m = elim p.disk [
    | inl e ↦ rw e (sym (disk_after-moves (rw (← e) m)))
    | inr (inl e) ↦ elim (Bool-cases (moves t.prior_path t.row.archive_path old.disk)) [
      | inl q ↦
          rw (e ∙ disk_between-moves q)
            (moved_twice t.prior_path t.row.archive_path old.disk ∙ sym (disk_after-moves q))
      | inr q ↦ cc (m, e, disk_between-stays q, q)
    ]
    | inr (inr e) ↦ elim (Bool-cases (moves t.prior_path t.row.archive_path old.disk)) [
      | inl q ↦ cc (moves_once t.prior_path t.row.archive_path old.disk q, m, e, disk_after-moves q)
      | inr q ↦ cc (m, e, disk_after-stays q, q)
    ]
  ]

  pub rows_done :
      (a : Archive)
      → IsNew t old
      → IsPending a
      → is_unwritten t.row a.rows ≡ false
      → a.rows ≡ old.rows ++ t.row ∷ []
  rows_done a n p m = elim p.rows [ inl e ↦ cc (n.unwritten, m, e) | inr e ↦ e ]

  pub rows_todo :
      (a : Archive)
      → IsNew t old
      → IsPending a
      → is_unwritten t.row a.rows ≡ true
      → a.rows ≡ old.rows
  rows_todo a n p m = elim p.rows [ inl e ↦ e | inr e ↦ cc (written_now t.row old.rows, m, e) ]

  pub trail_done :
      (recovering : Bool) (a : Archive)
      → IsNew t old
      → IsPending a
      → recovering && any_of (λ e. same_event e t.event) a.trail ≡ true
      → a.trail ≡ old.trail ++ t.event ∷ []
  trail_done recovering a n p m = elim p.trail [
    | inl e ↦
        let none_there : any_of (λ x. same_event x t.event) a.trail ≡ false = rw e n.unrecorded in
        ground arith
    | inr e ↦ e
  ]

  pub trail_todo :
      (recovering : Bool) (a : Archive)
      → IsPending a
      → Ready recovering a
      → recovering && any_of (λ e. same_event e t.event) a.trail ≡ false
      → a.trail ≡ old.trail
  trail_todo recovering a p r m = elim r [
    | inr e ↦ e
    | inl q ↦ elim p.trail [
      | inl e ↦ e
      | inr e ↦
          let there : any_of (λ x. same_event x t.event) a.trail ≡ true =
            rw (e, any_of-append) (ground (arith, same_event_refl t.event)) in
          ground arith
    ]
  ]

  -- The parts that are done, in the order of the steps.
  abbrev pub Begun : Bool → Archive → Type 0
  Begun recovering a = IsPending a × Ready recovering a
