-- ===== src/Audit/Redact/Kept.antt =====
-- The trail after a redaction and its record (dlpduck/audit.py, `redact`).
use mathlib.Core.Path.{subst}
use dlpduck.Prelude.{
  ℕ, suc, String, ◌≡◌, refl, sym, ◌∙◌, inl, inr, false, some, List, [], ◌∷◌, arith, Option-cases,
  any_of,
}
use dlpduck.Audit.Trail.{Event, event, Partition, Trail, chained, mem_str, lookup, all_lines}
use dlpduck.Audit.Append.{make_event, append}
use dlpduck.Audit.Append.Intact.{append-lines, append-Clean, append-dated, append-terminated}
use dlpduck.Audit.Verify.{explains, checkpoint_hash, verify}
use dlpduck.Audit.Verify.Exact.{IsIntact-verify}
use dlpduck.Audit.Sound.{tell, LineAccounted, DatedAfter, AllTerminated, IsIntact, NotBefore}
use dlpduck.Audit.Redact.{
  redacted_as, protected_fields, find_line, find_event, empty_fields, replace_event,
  redaction_fields, redact_found, redact,
}
use dlpduck.Audit.Redact.Intact.{
  with_fields_emptied, empty_fields-guarded, find_line-seq, Emptied, replace_event-Emptied,
  Emptied-Clean, Emptied-later,
}

replace_event-dated :
    (low seq : ℕ) (fs : List String) (ps : List Partition)
    → DatedAfter low ps
    → DatedAfter low (replace_event seq fs ps)
unfolding replace_event
replace_event-dated low seq fs [] d = tt
replace_event-dated low seq fs (p ∷ ps) d =
    ground (arith, replace_event-dated (suc p.date) seq fs ps)

replace_event-terminated :
    (seq : ℕ) (fs : List String) (ps : List Partition)
    → AllTerminated ps
    → AllTerminated (replace_event seq fs ps)
unfolding replace_event
replace_event-terminated seq fs [] t = tt
replace_event-terminated seq fs (p ∷ ps) t = ground (arith, replace_event-terminated seq fs ps)

replace_event-NotBefore :
    (date seq : ℕ) (fs : List String) (ps : List Partition)
    → NotBefore date ps
    → NotBefore date (replace_event seq fs ps)
unfolding replace_event
replace_event-NotBefore date seq fs [] t = tt
replace_event-NotBefore date seq fs (p ∷ ps) t =
    ground (arith, replace_event-NotBefore date seq fs ps)

find_event-seq :
    (seq : ℕ) (ps : List Partition) (e : Event) → find_event seq ps ≡ some e → e.seq ≡ seq
unfolding find_event
find_event-seq seq [] e h = cc
find_event-seq seq (p ∷ ps) e h = elim (Option-cases (find_line seq p.lines)) [
  | inl q ↦ find_event-seq seq ps e (ground arith)
  | inr (f, q) ↦
      let same : f ≡ e = ground arith in
      subst (λ (x : Event). x.seq ≡ seq) same (find_line-seq seq p.lines f q)
]

module _ (digest : Event → ℕ) where
  tell-redaction :
      (seq : ℕ) (fs : List String) (reason actor : String) (date : ℕ) (ts : String) (trail : Trail)
      → tell (
          event
            (append digest chained date ts "audit.redacted"
              (redaction_fields seq fs reason actor)
              trail).1)
        ≡ (seq, fs) ∷ []
  unfolding append make_event explains lookup
  tell-redaction seq fs reason actor date ts trail = refl

  redaction-unmarked :
      (seq : ℕ) (fs : List String) (reason actor : String) (date : ℕ) (ts : String) (trail : Trail)
      → LineAccounted [] (
          event
            (append digest chained date ts "audit.redacted"
              (redaction_fields seq fs reason actor)
              trail).1)
  unfolding append make_event
  redaction-unmarked seq fs reason actor date ts trail = tt

  module _ (seq : ℕ) (fs : List String) (reason actor : String) (date : ℕ) (ts : String)
      (trail : Trail) (e : Event) (intact : IsIntact digest trail)
      (clock : NotBefore date trail.partitions) (found : find_event seq trail.partitions ≡ some e)
      (guard : any_of (λ f. mem_str f (protected_fields e)) fs ≡ false) where
    abbrev emptied : Trail
    emptied = record trail { partitions = replace_event seq fs trail.partitions }

    abbrev recorded : Trail × Event
    recorded =
        append digest chained date ts "audit.redacted" (redaction_fields seq fs reason actor)
          emptied

    same_checkpoint : recorded.0.checkpoint ≡ trail.checkpoint
    unfolding append
    same_checkpoint = refl

    emptied-dated : DatedAfter 0 emptied.partitions
    emptied-dated = replace_event-dated 0 seq fs trail.partitions intact.dated

    emptied-terminated : AllTerminated emptied.partitions
    emptied-terminated = replace_event-terminated seq fs trail.partitions intact.terminated

    emptied-NotBefore : NotBefore date emptied.partitions
    emptied-NotBefore = replace_event-NotBefore date seq fs trail.partitions clock

    rewritten : Emptied seq fs (all_lines trail.partitions) (all_lines emptied.partitions)
    rewritten = replace_event-Emptied seq fs trail.partitions e found guard

    pub recorded-IsIntact : IsIntact digest recorded.0
    recorded-IsIntact = record {
      clean = rw same_checkpoint (
          append-Clean digest date ts "audit.redacted" (redaction_fields seq fs reason actor)
            emptied emptied-dated emptied-terminated emptied-NotBefore
            (Emptied-Clean digest seq fs (checkpoint_hash trail.checkpoint) rewritten
              intact.clean));
      later =
          rw
            (append-lines digest date ts "audit.redacted" (redaction_fields seq fs reason actor)
              emptied emptied-dated emptied-terminated emptied-NotBefore)
            (Emptied-later seq fs (event recorded.1) rewritten
              (tell-redaction seq fs reason actor date ts emptied)
              (redaction-unmarked seq fs reason actor date ts emptied) intact.later);
      dated =
          append-dated digest date ts "audit.redacted" (redaction_fields seq fs reason actor)
            emptied emptied-dated;
      terminated =
          append-terminated digest date ts "audit.redacted" (redaction_fields seq fs reason actor)
            emptied emptied-terminated;
    }

  -- What must have held for a redaction to be done, and what it leaves.
  redact_cases :
      (seq : ℕ) (fs : List String) (reason actor : String) (date : ℕ) (ts : String)
      (trail after : Trail) (e : Event)
      → redact digest chained seq fs reason actor date ts trail ≡ redacted_as after e
      → (found : Event) × (find_event seq trail.partitions ≡ some found)
        × (any_of (λ f. mem_str f (protected_fields found)) fs ≡ false)
        × ((append digest chained date ts "audit.redacted"
              (redaction_fields seq fs reason actor)
              (record trail { partitions = replace_event seq fs trail.partitions })).0
            ≡ after)
        × (empty_fields fs found ≡ e)
  unfolding redact redact_found
  redact_cases seq fs reason actor date ts trail after e h =
      elim (Option-cases (find_event seq trail.partitions)) [
        | inl q ↦ ground (arith)
        | inr (found, q) ↦ (found, q, ground (arith), ground (arith), ground (arith))
      ]

  -- The event as it was found: what the redaction emptied is none of what the chain is made of.
  abbrev pub KeepsChain : Event → Event → Type 0
  KeepsChain found e =
      (e.seq ≡ found.seq)
      × (e.ts ≡ found.ts)
      × (e.kind ≡ found.kind)
      × (e.prev ≡ found.prev)
      × (e.hash ≡ found.hash)

  -- A redaction that is done on an intact, chained trail keeps it intact and verifiable, whatever
  -- was emptied before and whichever event it is, the record of another redaction included, unless
  -- the clock has gone back over a midnight. The event that is returned has the number that was
  -- asked for, and the time, the kind, the previous hash and the hash of the event that was found
  -- under it.
  pub redact-IsIntact :
      (seq : ℕ) (fs : List String) (reason actor : String) (date : ℕ) (ts : String)
      (trail after : Trail) (e : Event)
      → IsIntact digest trail
      → NotBefore date trail.partitions
      → redact digest chained seq fs reason actor date ts trail ≡ redacted_as after e
      → IsIntact digest after
        × ((verify digest chained after).0 ≡ [])
        × (e.seq ≡ seq)
        × ((found : Event) × ((find_event seq trail.partitions ≡ some found) × KeepsChain found e))
  redact-IsIntact seq fs reason actor date ts trail after e i clock h =
      let (found, f, g, a, r) = redact_cases seq fs reason actor date ts trail after e h in
      let kept : IsIntact digest after =
        subst (IsIntact digest) a
          (recorded-IsIntact seq fs reason actor date ts trail found i clock f g) in
      let only : with_fields_emptied fs found ≡ e = sym (empty_fields-guarded fs found g) ∙ r in
      let same : KeepsChain found e =
        subst (KeepsChain found) only (refl, refl, refl, refl, refl) in
      (
        kept,
        IsIntact-verify digest after kept,
        same.0 ∙ find_event-seq seq trail.partitions found f,
        (found, (f, same)),
      )
