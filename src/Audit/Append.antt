-- ===== src/Audit/Append.antt =====
-- `AuditLog.append` (dlpduck/audit.py).
pub mod Intact
use dlpduck.Prelude.{
  ℕ, ◌+◌, String, Bool, true, false, Option, none, some, List, [], ◌∷◌, ◌++◌, ltb, ◌==◌,
  if◌then◌else◌,
}
use dlpduck.Audit.Trail.{
  Value, Event, Line, blank, torn, event, Partition, Trail, Integrity, chained, unchained, resume,
}

-- A write in append mode: it goes on where the file ends, so that it joins a line that was cut
-- short. The two together are not JSON.
unfoldable pub write_line : List Line → Bool → Event → List Line
write_line lines false e = lines ++ event e ∷ []
write_line [] true e = event e ∷ []
write_line (blank ∷ []) true e = event e ∷ []
write_line (torn ∷ []) true e = torn ∷ []
write_line (event last ∷ []) true e = torn ∷ []
write_line (l ∷ m ∷ rest) true e = l ∷ write_line (m ∷ rest) true e

-- The partition of the given date, made if it is not there, in the order of the names.
unfoldable pub put_event : ℕ → Event → List Partition → List Partition
unfolding write_line
put_event date e [] = record { date = date; lines = event e ∷ []; unterminated = false } ∷ []
put_event date e (p ∷ ps) =
    let later = put_event date e ps in
    if p.date == date
    then record p { lines = write_line p.lines p.unterminated e; unterminated = false } ∷ ps
    else if ltb date p.date
    then record { date = date; lines = event e ∷ []; unterminated = false } ∷ p ∷ ps
    else p ∷ later

module _ (digest : Event → ℕ) where
  -- The event that is written after `seq` and `prev`.
  unfoldable pub make_event :
      Integrity → ℕ → Option ℕ → String → String → List (String × Value) → Event
  make_event unchained seq prev ts kind fields = record {
    seq = seq + 1;
    ts = ts;
    kind = kind;
    fields = fields;
    prev = none;
    hash = none;
    redacted = none;
  }
  make_event chained seq prev ts kind fields =
      let body : Event = record {
        seq = seq + 1;
        ts = ts;
        kind = kind;
        fields = fields;
        prev = prev;
        hash = none;
        redacted = none;
      } in
      record body { hash = some (digest body) }

  -- Under the lock, from what is on disk: the clock says `date` and `ts`.
  unfoldable pub append :
      Integrity → ℕ → String → String → List (String × Value) → Trail → Trail × Event
  unfolding resume make_event put_event
  append integrity date ts kind fields trail =
      let (seq, prev) = resume trail in
      let e = make_event integrity seq prev ts kind fields in
      (record trail { partitions = put_event date e trail.partitions }, e)
