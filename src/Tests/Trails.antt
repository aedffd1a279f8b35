-- ===== src/Tests/Trails.antt =====
-- A trail of a few events, on which the theorems on dlpduck/audit.py are applied.
use dlpduck.Prelude.{
  ℕ, ◌+◌, ◌*◌, ◌≡◌, refl, ◌≢◌, ◌↔◌, false, none, some, List, [], ◌∷◌, ◌++◌, arith, keep_if,
}
use dlpduck.Audit.Trail.{
  str, Event, Line, event, Partition, Trail, chained, last_event, newest_event, resume, all_lines,
}
use dlpduck.Audit.Append.{append}
use dlpduck.Audit.Append.Intact.{append-IsIntact}
use dlpduck.Audit.Verify.{explains, checkpoint_hash, verify}
use dlpduck.Audit.Verify.Exact.{verify_iff}
use dlpduck.Audit.Sound.{told_by, AllAccounted, Clean, IsIntact}
use dlpduck.Audit.Redact.{
  unredactable, refused, redacted_as, protected_fields, find_line, find_event, empty_fields,
  replace_event, redaction_fields, redact_found, redact,
}
use dlpduck.Audit.Redact.Kept.{KeepsChain, redact-IsIntact}
use dlpduck.Audit.Trim.{newest_partition, is_old, trim}
use dlpduck.Audit.Trim.Intact.{trim-IsIntact, trim_gap}

abbrev example_digest : Event → ℕ
example_digest e = e.seq * 7 + 1

abbrev flagged_event : Event
flagged_event = record {
  seq = 1;
  ts = "t0";
  kind = "job.flagged";
  fields = ("job_id", str "a") ∷ ("detail", str "x") ∷ [];
  prev = none;
  hash = some 8;
  redacted = none;
}

abbrev released_event : Event
released_event = record {
  seq = 2;
  ts = "t1";
  kind = "job.released";
  fields = ("job_id", str "a") ∷ [];
  prev = some 8;
  hash = some 15;
  redacted = none;
}

abbrev on_day : ℕ → List Line → Partition
on_day d ls = record { date = d; lines = ls; unterminated = false }

abbrev two_days : Trail
two_days = record {
  partitions = on_day 10 (event flagged_event ∷ []) ∷ on_day 12 (event released_event ∷ []) ∷ [];
  checkpoint = none;
}

two_days-IsIntact : IsIntact example_digest two_days
unfolding all_lines told_by explains
two_days-IsIntact = record {
  clean = ((refl, refl), ((refl, refl), tt));
  later = (tt, (tt, tt));
  dated = (ground arith, (ground arith, tt));
  terminated = (refl, (refl, tt));
}

-- A day on which the file was made but nothing was written to it.
abbrev empty_day : Trail
empty_day = record {
  partitions =
      on_day 10 (event flagged_event ∷ [])
      ∷ on_day 11 []
      ∷ on_day 12 (event released_event ∷ [])
      ∷ [];
  checkpoint = none;
}

empty_day-IsIntact : IsIntact example_digest empty_day
unfolding all_lines told_by explains
empty_day-IsIntact = record {
  clean = ((refl, refl), ((refl, refl), tt));
  later = (tt, (tt, tt));
  dated = (ground arith, (ground arith, (ground arith, tt)));
  terminated = (refl, (refl, (refl, tt)));
}

append-IsIntact_example :
    let (trail', e) = append example_digest chained 12 "t2" "job.purged" [] two_days in
    IsIntact example_digest trail'
    × (all_lines trail'.partitions ≡ all_lines two_days.partitions ++ event e ∷ [])
    × (e.seq ≡ (resume two_days).0 + 1)
    × ((verify example_digest chained trail').0 ≡ [])
append-IsIntact_example =
    append-IsIntact example_digest 12 "t2" "job.purged" [] two_days two_days-IsIntact
      (ground arith, (ground arith, tt))

abbrev without_detail : Trail
without_detail = record two_days {
  partitions = replace_event 1 ("detail" ∷ []) two_days.partitions;
}

redaction_done :
    redact example_digest chained 1 ("detail" ∷ []) "erasure" "admin" 12 "t2" two_days
    ≡ redacted_as
        (append example_digest chained 12 "t2" "audit.redacted"
          (redaction_fields 1 ("detail" ∷ []) "erasure" "admin")
          without_detail).0
        (empty_fields ("detail" ∷ []) flagged_event)
unfolding redact redact_found find_event find_line protected_fields
redaction_done = refl

-- A field that the chain is made of is not emptied.
hash_kept :
    redact example_digest chained 1 ("hash" ∷ []) "erasure" "admin" 12 "t2" two_days
    ≡ refused unredactable
unfolding redact redact_found find_event find_line protected_fields
hash_kept = refl

redact-IsIntact_example :
    IsIntact example_digest
      (append example_digest chained 12 "t2" "audit.redacted"
        (redaction_fields 1 ("detail" ∷ []) "erasure" "admin")
        without_detail).0
    × ((verify example_digest chained
          (append example_digest chained 12 "t2" "audit.redacted"
            (redaction_fields 1 ("detail" ∷ []) "erasure" "admin")
            without_detail).0).0
        ≡ [])
    × ((empty_fields ("detail" ∷ []) flagged_event).seq ≡ 1)
    × ((found : Event) × ((find_event 1 two_days.partitions ≡ some found)
          × KeepsChain example_digest found (empty_fields ("detail" ∷ []) flagged_event)))
redact-IsIntact_example =
    redact-IsIntact example_digest 1 ("detail" ∷ []) "erasure" "admin" 12 "t2" two_days _ _
      two_days-IsIntact (ground arith, (ground arith, tt)) redaction_done

old_partition : keep_if (is_old 11) two_days.partitions ≡ on_day 10 (event flagged_event ∷ []) ∷ []
unfolding is_old
old_partition = refl

trim-IsIntact_example :
    IsIntact example_digest (trim chained 11 two_days)
    × ((verify example_digest chained (trim chained 11 two_days)).0 ≡ [])
trim-IsIntact_example =
    trim-IsIntact example_digest 11 two_days (on_day 10 (event flagged_event ∷ [])) [] flagged_event
      two_days-IsIntact old_partition (unfold newest_partition last_event in refl) (ground arith)

trim_gap_example : (verify example_digest chained (trim chained 12 empty_day)).0 ≢ []
trim_gap_example =
    trim_gap example_digest 12 empty_day (on_day 10 (event flagged_event ∷ [])) (on_day 11 [] ∷ [])
      flagged_event released_event 8 empty_day-IsIntact refl (unfold is_old in refl)
      (unfold newest_partition last_event in refl) (unfold newest_event last_event in refl) refl
      (unfold is_old all_lines last_event in refl)

verify_iff_example : ((verify example_digest chained two_days).0 ≡ []) ↔ (
    Clean example_digest (checkpoint_hash two_days.checkpoint) (all_lines two_days.partitions)
    × AllAccounted (told_by (all_lines two_days.partitions)) (all_lines two_days.partitions))
verify_iff_example = verify_iff example_digest two_days
