-- ===== src/Audit/Verify.antt =====
-- `AuditLog.verify` (dlpduck/audit.py).
pub mod Exact
use dlpduck.Prelude.{
  ℕ, ◌+◌, String, Bool, not, ◌&&◌, Option, none, some, List, [], ◌∷◌, ◌++◌, str_eq, ◌==◌,
  if◌then◌else◌, keep_if, any_of,
}
use dlpduck.Audit.Trail.{
  Value, num, strs, Event, Line, blank, torn, event, Partition, Checkpoint, Trail, Integrity,
  chained, unchained, opt_eq, mem_str, lookup,
}

-- A partition's date and a line number.
abbrev pub Place : Type 0
Place = ℕ × ℕ

pub data ChainBroken : Type 0 where
  unreadable prev_mismatch hash_mismatch unexplained unaccounted : Place → ChainBroken

pub record Redaction : Type 0 where
  pub place : Place
  pub seq : ℕ
  pub fields : List String

-- The variables of the loop. `explained` has an entry for each `audit.redacted` event: a dict's
-- entry under a key is the union of all with that key.
pub record Walk : Type 0 where
  pub prev : Option ℕ
  pub breaks : List ChainBroken
  pub redactions : List Redaction
  pub explained : List (ℕ × List String)

abbrev pub as_seq : Option Value → Option ℕ
as_seq (some (num n)) = some n
as_seq _ = none

-- event.get("fields") or []
abbrev pub as_fields : Option Value → List String
as_fields (some (strs fs)) = fs
as_fields _ = []

abbrev entry : Option ℕ → List String → List (ℕ × List String)
entry none fs = []
entry (some n) fs = (n, fs) ∷ []

-- What an event records of a redaction: nothing, or a number and the names of fields. No event
-- has the number -1 that stands for a missing one.
unfoldable pub explains : Event → List (ℕ × List String)
unfolding lookup
explains e =
    if str_eq e.kind "audit.redacted"
    then entry (as_seq (lookup "redacted_seq" e.fields)) (as_fields (lookup "fields" e.fields))
    else []

-- redaction.seq in explained
abbrev pub is_explained : List (ℕ × List String) → ℕ → Bool
is_explained told seq = any_of (λ t. t.0 == seq) told

-- field in explained[seq]
abbrev pub is_accounted : List (ℕ × List String) → ℕ → String → Bool
is_accounted told seq field = any_of (λ t. t.0 == seq && mem_str field t.1) told

unfoldable pub unaccounted_breaks : Place → List String → List ChainBroken
unaccounted_breaks at [] = []
unaccounted_breaks at (f ∷ fs) = unaccounted at ∷ []

unfoldable pub redaction_breaks : List (ℕ × List String) → Redaction → List ChainBroken
unfolding unaccounted_breaks
redaction_breaks told r =
    if is_explained told r.seq
    then unaccounted_breaks r.place (keep_if (λ f. not (is_accounted told r.seq f)) r.fields)
    else unexplained r.place ∷ []

unfoldable pub all_redaction_breaks : List (ℕ × List String) → List Redaction → List ChainBroken
unfolding redaction_breaks
all_redaction_breaks told [] = []
all_redaction_breaks told (r ∷ rs) = redaction_breaks told r ++ all_redaction_breaks told rs

abbrev pub checkpoint_hash : Option Checkpoint → Option ℕ
checkpoint_hash none = none
checkpoint_hash (some c) = c.hash

module _ (digest : Event → ℕ) where
  unfoldable pub seal_breaks : Place → Event → List ChainBroken
  seal_breaks at e =
      if opt_eq e.hash (some (digest (record e { hash = none }))) then [] else hash_mismatch at ∷ []

  unfoldable pub walk_event : Place → Event → Walk → Walk
  unfolding explains seal_breaks
  walk_event at e w =
      let linked = if opt_eq e.prev w.prev then w.breaks else w.breaks ++ prev_mismatch at ∷ [] in
      let told = w.explained ++ explains e in
      elim e.redacted [
        | some fs ↦ record {
          prev = e.hash;
          breaks = linked;
          redactions = w.redactions ++ record { place = at; seq = e.seq; fields = fs } ∷ [];
          explained = told;
        }
        | none ↦ record {
          prev = e.hash;
          breaks = linked ++ seal_breaks at e;
          redactions = w.redactions;
          explained = told;
        }
      ]

  unfoldable pub walk_line : Place → Line → Walk → Walk
  unfolding walk_event
  walk_line at blank w = w
  walk_line at torn w = record w { breaks = w.breaks ++ unreadable at ∷ [] }
  walk_line at (event e) w = walk_event at e w

  unfoldable pub walk_lines : ℕ → ℕ → List Line → Walk → Walk
  unfolding walk_line
  walk_lines date n [] w = w
  walk_lines date n (l ∷ ls) w = walk_lines date (n + 1) ls (walk_line (date, n) l w)

  unfoldable pub walk_partitions : List Partition → Walk → Walk
  unfolding walk_lines
  walk_partitions [] w = w
  walk_partitions (p ∷ ps) w = walk_partitions ps (walk_lines p.date 1 p.lines w)

  -- The breaks, and the redactions that are reported beside them. The result's `ok` says that
  -- there are no breaks.
  unfoldable pub verify : Integrity → Trail → List ChainBroken × List Redaction
  unfolding walk_partitions all_redaction_breaks
  verify unchained trail = ([], [])
  verify chained trail =
      let w = walk_partitions trail.partitions (record {
        prev = checkpoint_hash trail.checkpoint;
        breaks = [];
        redactions = [];
        explained = [];
      }) in
      (w.breaks ++ all_redaction_breaks w.explained w.redactions, w.redactions)
