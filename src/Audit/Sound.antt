-- ===== src/Audit/Sound.antt =====
-- What it means for a trail to be intact, described line by line with no walk and no accumulator.
use mathlib.Core.Path.{subst}
use mathlib.Core.List.{append_assoc}
use dlpduck.Prelude.{
  ℕ, suc, ◌≤◌, String, ◌≡◌, refl, true, false, ◌&&◌, Option, none, some, List, [], ◌∷◌, ◌++◌, arith,
  ◌==◌, All, All-map, any_of-append,
}
use dlpduck.Audit.Trail.{Event, Line, blank, torn, event, Partition, Trail, mem_str, all_lines}
use dlpduck.Audit.Verify.{explains, is_explained, is_accounted, checkpoint_hash}

-- The hash that the next event must name.
abbrev pub step_prev : Option ℕ → Line → Option ℕ
step_prev p blank = p
step_prev p torn = p
step_prev p (event e) = e.hash

unfoldable pub final_prev : Option ℕ → List Line → Option ℕ
final_prev p [] = p
final_prev p (l ∷ ls) = final_prev (step_prev p l) ls

abbrev pub tell : Line → List (ℕ × List String)
tell blank = []
tell torn = []
tell (event e) = explains e

-- All that the events of these lines record of redactions.
unfoldable pub told_by : List Line → List (ℕ × List String)
told_by [] = []
told_by (l ∷ ls) = tell l ++ told_by ls

abbrev pub Accounted : List (ℕ × List String) → ℕ → List String → Type 0
Accounted told seq fs =
    (is_explained told seq ≡ true) × All (λ f. is_accounted told seq f ≡ true) fs

abbrev pub MarkerAccounted : List (ℕ × List String) → ℕ → Option (List String) → Type 0
MarkerAccounted told seq none = Unit
MarkerAccounted told seq (some fs) = Accounted told seq fs

abbrev pub LineAccounted : List (ℕ × List String) → Line → Type 0
LineAccounted told blank = Unit
LineAccounted told torn = Unit
LineAccounted told (event e) = MarkerAccounted told e.seq e.redacted

-- The records of the lines themselves say what was emptied in every marked event.
abbrev pub AllAccounted : List (ℕ × List String) → List Line → Type 0
AllAccounted told ls = All (LineAccounted told) ls

-- The record of a redaction stands after the event that it is about.
abbrev pub LaterAccounted : List Line → Type 0
LaterAccounted [] = Unit
LaterAccounted (l ∷ ls) = LineAccounted (told_by ls) l × LaterAccounted ls

module _ (digest : Event → ℕ) where
  abbrev pub Sealed : Option (List String) → Event → Type 0
  Sealed none e = e.hash ≡ some (digest (record e { hash = none }))
  Sealed (some fs) e = Unit

  abbrev pub CleanLine : Option ℕ → Line → Type 0
  CleanLine p blank = Unit
  CleanLine p torn = ⊥
  CleanLine p (event e) = (e.prev ≡ p) × Sealed e.redacted e

  -- Every line is readable, every event names the hash of the one before it, and the hash of an
  -- event that was not emptied is its digest.
  abbrev pub Clean : Option ℕ → List Line → Type 0
  Clean p [] = Unit
  Clean p (l ∷ ls) = CleanLine p l × Clean (step_prev p l) ls

  pub Clean-append :
      (p : Option ℕ) (xs ys : List Line)
      → Clean p xs
      → Clean (final_prev p xs) ys
      → Clean p (xs ++ ys)
  unfolding final_prev
  Clean-append p [] ys a b = b
  Clean-append p (x ∷ xs) ys a b = (a.0, Clean-append (step_prev p x) xs ys a.1 b)

  pub Clean-drop :
      (p : Option ℕ) (xs ys : List Line) → Clean p (xs ++ ys) → Clean (final_prev p xs) ys
  unfolding final_prev
  Clean-drop p [] ys a = a
  Clean-drop p (x ∷ xs) ys a = Clean-drop (step_prev p x) xs ys a.1

pub told_by-append : (xs ys : List Line) → told_by (xs ++ ys) ≡ told_by xs ++ told_by ys
unfolding told_by
told_by-append [] ys = refl
told_by-append (x ∷ xs) ys = simp (told_by-append xs ys, append_assoc)

-- More records account for no less.
pub Accounted-left :
    (xs ys : List (ℕ × List String)) (seq : ℕ) (fs : List String)
    → Accounted xs seq fs
    → Accounted (xs ++ ys) seq fs
Accounted-left xs ys seq fs (e, all) = (
  ground (arith, any_of-append (λ (t : ℕ × List String). t.0 == seq) xs ys),
  All-map _ _ fs
      (λ f h.
        ground (arith, any_of-append (λ (t : ℕ × List String). t.0 == seq && mem_str f t.1) xs ys))
      all,
)

pub Accounted-right :
    (xs ys : List (ℕ × List String)) (seq : ℕ) (fs : List String)
    → Accounted ys seq fs
    → Accounted (xs ++ ys) seq fs
Accounted-right xs ys seq fs (e, all) = (
  ground (arith, any_of-append (λ (t : ℕ × List String). t.0 == seq) xs ys),
  All-map _ _ fs
      (λ f h.
        ground (arith, any_of-append (λ (t : ℕ × List String). t.0 == seq && mem_str f t.1) xs ys))
      all,
)

MarkerAccounted-left :
    (xs ys : List (ℕ × List String)) (seq : ℕ) (m : Option (List String))
    → MarkerAccounted xs seq m
    → MarkerAccounted (xs ++ ys) seq m
MarkerAccounted-left xs ys seq none h = tt
MarkerAccounted-left xs ys seq (some fs) h = Accounted-left xs ys seq fs h

MarkerAccounted-right :
    (xs ys : List (ℕ × List String)) (seq : ℕ) (m : Option (List String))
    → MarkerAccounted ys seq m
    → MarkerAccounted (xs ++ ys) seq m
MarkerAccounted-right xs ys seq none h = tt
MarkerAccounted-right xs ys seq (some fs) h = Accounted-right xs ys seq fs h

pub LineAccounted-left :
    (xs ys : List (ℕ × List String)) (l : Line) → LineAccounted xs l → LineAccounted (xs ++ ys) l
LineAccounted-left xs ys blank h = tt
LineAccounted-left xs ys torn h = tt
LineAccounted-left xs ys (event e) h = MarkerAccounted-left xs ys e.seq e.redacted h

pub LineAccounted-right :
    (xs ys : List (ℕ × List String)) (l : Line) → LineAccounted ys l → LineAccounted (xs ++ ys) l
LineAccounted-right xs ys blank h = tt
LineAccounted-right xs ys torn h = tt
LineAccounted-right xs ys (event e) h = MarkerAccounted-right xs ys e.seq e.redacted h

-- A record that stands later accounts among all the records.
pub LaterAccounted-all :
    (told : List (ℕ × List String)) (ls : List Line)
    → LaterAccounted ls
    → AllAccounted (told ++ told_by ls) ls
unfolding told_by
LaterAccounted-all told [] h = tt
LaterAccounted-all told (l ∷ ls) h = (
  LineAccounted-right told (tell l ++ told_by ls) l
      (LineAccounted-right (tell l) (told_by ls) l h.0),
  subst (λ t. AllAccounted t ls) (append_assoc told (tell l) (told_by ls))
      (LaterAccounted-all (told ++ tell l) ls h.1),
)

pub LaterAccounted-drop : (xs ys : List Line) → LaterAccounted (xs ++ ys) → LaterAccounted ys
LaterAccounted-drop [] ys h = h
LaterAccounted-drop (x ∷ xs) ys h = LaterAccounted-drop xs ys h.1

-- One more line keeps what was accounted for.
pub LaterAccounted-snoc :
    (ls : List Line) (l : Line)
    → LaterAccounted ls
    → LineAccounted [] l
    → LaterAccounted (ls ++ l ∷ [])
unfolding told_by
LaterAccounted-snoc [] l h a = (a, tt)
LaterAccounted-snoc (x ∷ xs) l h a = (
  rw told_by-append (LineAccounted-left (told_by xs) (told_by (l ∷ [])) x h.0),
  LaterAccounted-snoc xs l h.1 a,
)

-- The partitions stand in the order of their dates, after `low`.
abbrev pub DatedAfter : ℕ → List Partition → Type 0
DatedAfter low [] = Unit
DatedAfter low (p ∷ ps) = (low ≤ p.date) × DatedAfter (suc p.date) ps

abbrev pub AllTerminated : List Partition → Type 0
AllTerminated ps = All (λ p. p.unterminated ≡ false) ps

-- The state in which the operations leave the trail: it is intact, and no file ends in the middle
-- of a line.
pub record IsIntact (digest : Event → ℕ) (trail : Trail) : Type 0 where
  pub clean : Clean digest (checkpoint_hash trail.checkpoint) (all_lines trail.partitions)
  pub later : LaterAccounted (all_lines trail.partitions)
  pub dated : DatedAfter 0 trail.partitions
  pub terminated : AllTerminated trail.partitions

-- No partition is dated after `date`: the clock has not gone back over a midnight.
abbrev pub NotBefore : ℕ → List Partition → Type 0
NotBefore date ps = All (λ p. p.date ≤ date) ps
