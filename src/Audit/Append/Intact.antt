-- ===== src/Audit/Append/Intact.antt =====
-- An append keeps the trail intact, and adds one event at its end (dlpduck/audit.py, `append`).
use mathlib.Core.List.{append_assoc, append-nil}
use dlpduck.Audit.Verify.Exact.{IsIntact-verify}
use dlpduck.Prelude.{
  ℕ, suc, ◌+◌, ◌≤◌, String, ◌≡◌, refl, sym, ap, ◌∙◌, inl, inr, false, Option, none, some, List, [],
  ◌∷◌, ◌++◌, arith, ltb, ◌==◌, Bool-cases,
}
use dlpduck.Audit.Trail.{
  Value, Event, Line, blank, torn, event, Partition, Trail, chained, or_else, last_event,
  newest_event, resume, all_lines,
}
use dlpduck.Audit.Append.{put_event, make_event, append}
use dlpduck.Audit.Verify.{checkpoint_hash, verify}
use dlpduck.Audit.Sound.{
  final_prev, LineAccounted, CleanLine, Clean, Clean-append, LaterAccounted-snoc, DatedAfter,
  AllTerminated, IsIntact, NotBefore,
}

last_event-append :
    (xs ys : List Line) → last_event (xs ++ ys) ≡ or_else (last_event ys) (last_event xs)
unfolding last_event
last_event-append [] ys = ground arith
last_event-append (blank ∷ xs) ys = last_event-append xs ys
last_event-append (torn ∷ xs) ys = last_event-append xs ys
last_event-append (event e ∷ xs) ys = ground (arith, last_event-append xs ys)

pub newest_event-lines : (ps : List Partition) → newest_event ps ≡ last_event (all_lines ps)
unfolding newest_event all_lines
newest_event-lines [] = refl
newest_event-lines (p ∷ ps) = rw (last_event-append, newest_event-lines ps)

abbrev hash_after : Option ℕ → Option Event → Option ℕ
hash_after p none = p
hash_after p (some e) = e.hash

pub final_prev-last_event :
    (p : Option ℕ) (ls : List Line) → final_prev p ls ≡ hash_after p (last_event ls)
unfolding final_prev last_event
final_prev-last_event p [] = refl
final_prev-last_event p (blank ∷ ls) = final_prev-last_event p ls
final_prev-last_event p (torn ∷ ls) = final_prev-last_event p ls
final_prev-last_event p (event e ∷ ls) = ground (arith, final_prev-last_event e.hash ls)

-- `_resume` finds the hash that the next event must name.
resume-final_prev :
    (trail : Trail)
    → (resume trail).1 ≡ final_prev (checkpoint_hash trail.checkpoint) (all_lines trail.partitions)
unfolding resume
resume-final_prev trail = ground (
  arith,
  newest_event-lines trail.partitions,
  final_prev-last_event (checkpoint_hash trail.checkpoint) (all_lines trail.partitions),
)

none_later :
    (date : ℕ) (ps : List Partition) → DatedAfter (suc date) ps → NotBefore date ps → ps ≡ []
none_later date [] d b = refl
none_later date (p ∷ ps) d b = absurd (omega arith)

put_event-lines :
    (date low : ℕ) (e : Event) (ps : List Partition)
    → DatedAfter low ps
    → AllTerminated ps
    → NotBefore date ps
    → all_lines (put_event date e ps) ≡ all_lines ps ++ event e ∷ []
unfolding put_event all_lines
put_event-lines date low e [] d t b = refl
put_event-lines date low e (p ∷ ps) d t b = elim (Bool-cases (p.date == date)) [
  | inl q ↦
      let same : p.date ≡ date = ground arith in
      rw (q, t.0, none_later date ps (rw same at d.1) b.1, append-nil, append-nil) refl
  | inr q ↦
      let older : ltb date p.date ≡ false = ground arith in
      rw (q, older)
        (ap (λ (ls : List Line). p.lines ++ ls) (put_event-lines date (suc p.date) e ps d.1 t.1 b.1)
          ∙ sym (append_assoc p.lines (all_lines ps) (event e ∷ [])))
]

put_event-dated :
    (date low : ℕ) (e : Event) (ps : List Partition)
    → low ≤ date
    → DatedAfter low ps
    → DatedAfter low (put_event date e ps)
unfolding put_event
put_event-dated date low e [] l d = (l, tt)
put_event-dated date low e (p ∷ ps) l d = ground (arith, put_event-dated date (suc p.date) e ps)

put_event-terminated :
    (date : ℕ) (e : Event) (ps : List Partition)
    → AllTerminated ps
    → AllTerminated (put_event date e ps)
unfolding put_event
put_event-terminated date e [] t = (refl, tt)
put_event-terminated date e (p ∷ ps) t = ground (arith, put_event-terminated date e ps)

module _ (digest : Event → ℕ) where
  make_event-clean :
      (seq : ℕ) (prev : Option ℕ) (ts kind : String) (fields : List (String × Value))
      → CleanLine digest prev (event (make_event digest chained seq prev ts kind fields))
  unfolding make_event
  make_event-clean seq prev ts kind fields = (refl, refl)

  -- What an append does to the lines, to the order of the partitions and to the links.
  module _ (date : ℕ) (ts kind : String) (fields : List (String × Value)) (trail : Trail)
      (dated : DatedAfter 0 trail.partitions) (terminated : AllTerminated trail.partitions)
      (clock : NotBefore date trail.partitions) where
    abbrev appended : Trail × Event
    appended = append digest chained date ts kind fields trail

    pub append-lines :
        all_lines appended.0.partitions ≡ all_lines trail.partitions ++ event appended.1 ∷ []
    unfolding append
    append-lines = put_event-lines date 0 appended.1 trail.partitions dated terminated clock

    pub append-Clean :
        Clean digest (checkpoint_hash trail.checkpoint) (all_lines trail.partitions)
        → Clean digest (checkpoint_hash trail.checkpoint) (all_lines appended.0.partitions)
    unfolding append
    append-Clean c = rw append-lines (
        Clean-append digest (checkpoint_hash trail.checkpoint) (all_lines trail.partitions) _ c (
          rw (← resume-final_prev trail)
            (make_event-clean (resume trail).0 (resume trail).1 ts kind fields, tt)))

  append-seq :
      (date : ℕ) (ts kind : String) (fields : List (String × Value)) (trail : Trail)
      → (append digest chained date ts kind fields trail).1.seq ≡ (resume trail).0 + 1
  unfolding append make_event
  append-seq date ts kind fields trail = refl

  append-unmarked :
      (told : List (ℕ × List String)) (date : ℕ) (ts kind : String) (fields : List (String × Value))
      (trail : Trail)
      → LineAccounted told (event (append digest chained date ts kind fields trail).1)
  unfolding append make_event
  append-unmarked told date ts kind fields trail = tt

  pub append-dated :
      (date : ℕ) (ts kind : String) (fields : List (String × Value)) (trail : Trail)
      → DatedAfter 0 trail.partitions
      → DatedAfter 0 (append digest chained date ts kind fields trail).0.partitions
  unfolding append
  append-dated date ts kind fields trail d =
      put_event-dated date 0 _ trail.partitions (omega arith) d

  pub append-terminated :
      (date : ℕ) (ts kind : String) (fields : List (String × Value)) (trail : Trail)
      → AllTerminated trail.partitions
      → AllTerminated (append digest chained date ts kind fields trail).0.partitions
  unfolding append
  append-terminated date ts kind fields trail t = put_event-terminated date _ trail.partitions t

  kept_after :
      (date : ℕ) (ts kind : String) (fields : List (String × Value)) (trail : Trail)
      → IsIntact digest trail
      → NotBefore date trail.partitions
      → IsIntact digest (append digest chained date ts kind fields trail).0
  kept_after date ts kind fields trail i clock = record {
    clean =
        unfold append in append-Clean date ts kind fields trail i.dated i.terminated clock i.clean;
    later = rw (append-lines date ts kind fields trail i.dated i.terminated clock) (
        LaterAccounted-snoc (all_lines trail.partitions) _ i.later
          (append-unmarked [] date ts kind fields trail));
    dated = append-dated date ts kind fields trail i.dated;
    terminated = append-terminated date ts kind fields trail i.terminated;
  }

  -- Appending an event to an intact, chained trail keeps it intact, whatever the event, unless the
  -- clock has gone back
  -- over a midnight. The lines stay as they are, the new event follows the last of them, and its
  -- number is one more than that of the newest event.
  pub append-IsIntact :
      (date : ℕ) (ts kind : String) (fields : List (String × Value)) (trail : Trail)
      → IsIntact digest trail
      → NotBefore date trail.partitions
      → let (trail', e) = append digest chained date ts kind fields trail in
        IsIntact digest trail'
        × (all_lines trail'.partitions ≡ all_lines trail.partitions ++ event e ∷ [])
        × (e.seq ≡ (resume trail).0 + 1)
        × ((verify digest chained trail').0 ≡ [])
  append-IsIntact date ts kind fields trail i clock =
      let kept = kept_after date ts kind fields trail i clock in
      (
        kept,
        append-lines date ts kind fields trail i.dated i.terminated clock,
        append-seq date ts kind fields trail,
        IsIntact-verify digest _ kept,
      )
