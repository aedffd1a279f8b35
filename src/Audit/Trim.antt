-- ===== src/Audit/Trim.antt =====
-- What retention does to the trail: `write_trim_checkpoint` (dlpduck/audit.py), and then the
-- removal
-- of the partitions (dlpduck/retention.py).
pub mod Intact
use dlpduck.Prelude.{
  ℕ, Bool, not, Option, none, some, List, [], ◌∷◌, ltb, leb, if◌then◌else◌, keep_if,
}
use dlpduck.Audit.Trail.{Partition, Checkpoint, Trail, Integrity, chained, unchained, last_event}

-- max(partitions, key=name)
unfoldable pub newest_partition : Partition → List Partition → Partition
newest_partition best [] = best
newest_partition best (p ∷ ps) = newest_partition (if ltb best.date p.date then p else best) ps

abbrev pub newer : Checkpoint → Option Checkpoint → Checkpoint
newer c none = c
newer c (some old) = if leb c.seq old.seq then old else c

-- The checkpoint after the call: a later trim never moves it back.
unfoldable pub write_trim_checkpoint :
    Integrity → List Partition → Option Checkpoint → Option Checkpoint
unfolding newest_partition last_event
write_trim_checkpoint unchained removed old = old
write_trim_checkpoint chained [] old = old
write_trim_checkpoint chained (p ∷ ps) old = elim (last_event (newest_partition p ps).lines) [
  | none ↦ old
  | some e ↦ some (newer (record { seq = e.seq; hash = e.hash }) old)
]

-- The checkpoint is written, and then the partitions before `cutoff` are deleted.
unfoldable pub is_old : ℕ → Partition → Bool
is_old cutoff p = ltb p.date cutoff

unfoldable pub trim : Integrity → ℕ → Trail → Trail
unfolding write_trim_checkpoint is_old
trim integrity cutoff trail = record {
  partitions = keep_if (λ p. not (is_old cutoff p)) trail.partitions;
  checkpoint =
      write_trim_checkpoint integrity (keep_if (is_old cutoff) trail.partitions) trail.checkpoint;
}
