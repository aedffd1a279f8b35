-- ===== src/Audit/Trim/Intact.antt =====
-- After a trim the trail that is left is intact from the checkpoint on, if the newest partition
-- that
-- goes holds an event; if it holds none, the trim looks like tampering.
use mathlib.Core.Path.{subst}
use mathlib.Core.List.{append_assoc}
use dlpduck.Audit.Append.Intact.{newest_event-lines, final_prev-last_event}
use dlpduck.Prelude.{
  ℕ, suc, ◌≤◌, ◌<◌, ◌≡◌, refl, sym, ap, ◌∙◌, ◌≢◌, inl, inr, Bool, true, not, Option, none, some,
  List, [], ◌∷◌, ◌++◌, arith, ltb, if◌then◌else◌, Bool-cases, keep_if, All,
}
use dlpduck.Audit.Trail.{
  Event, Line, blank, torn, event, Partition, Trail, chained, last_event, newest_event,
  after_checkpoint, all_lines,
}
use dlpduck.Audit.Verify.{checkpoint_hash, verify}
use dlpduck.Audit.Verify.Exact.{verify_iff, IsIntact-verify}
use dlpduck.Audit.Sound.{final_prev, Clean, Clean-drop, LaterAccounted-drop, DatedAfter, IsIntact}
use dlpduck.Audit.Trim.{newest_partition, write_trim_checkpoint, is_old, trim}

dated_weaken :
    (low high : ℕ) (ps : List Partition) → low ≤ high → DatedAfter high ps → DatedAfter low ps
dated_weaken low high [] l d = tt
dated_weaken low high (p ∷ ps) l d = (omega arith, d.1)

dated-keep_if :
    (q : Partition → Bool) (low : ℕ) (ps : List Partition)
    → DatedAfter low ps
    → DatedAfter low (keep_if q ps)
dated-keep_if q low [] d = tt
dated-keep_if q low (p ∷ ps) d = elim (Bool-cases (q p)) [
  | inl e ↦ rw (e, keep_if) (d.0, dated-keep_if q (suc p.date) ps d.1)
  | inr e ↦
      rw (e, keep_if)
        (dated_weaken low (suc p.date) _ (omega arith) (dated-keep_if q (suc p.date) ps d.1))
]

All-keep_if {ℓ κ} :
    {A : Type ℓ} (P : A → Type κ) (q : A → Bool) (xs : List A) → All P xs → All P (keep_if q xs)
All-keep_if P q [] h = tt
All-keep_if P q (x ∷ xs) h = elim (Bool-cases (q x)) [
  | inl e ↦ rw (e, keep_if) (h.0, All-keep_if P q xs h.1)
  | inr e ↦ rw (e, keep_if) (All-keep_if P q xs h.1)
]

all_new :
    (cutoff low : ℕ) (ps : List Partition)
    → cutoff ≤ low
    → DatedAfter low ps
    → (keep_if (is_old cutoff) ps ≡ []) × (keep_if (λ p. not (is_old cutoff p)) ps ≡ ps)
unfolding is_old
all_new cutoff low [] l d = (refl, refl)
all_new cutoff low (p ∷ ps) l d = ground (arith, all_new cutoff (suc p.date) ps)

-- What is removed is what stands first.
kept_parts :
    (cutoff low : ℕ) (ps : List Partition)
    → DatedAfter low ps
    → ps ≡ keep_if (is_old cutoff) ps ++ keep_if (λ p. not (is_old cutoff p)) ps
unfolding is_old
kept_parts cutoff low [] d = refl
kept_parts cutoff low (p ∷ ps) d = elim (Bool-cases (ltb p.date cutoff)) [
  | inl e ↦
      rw (e, keep_if) (ap (λ (t : List Partition). p ∷ t) (kept_parts cutoff (suc p.date) ps d.1))
  | inr e ↦ ground (arith, all_new cutoff (suc p.date) ps)
]

all_lines-append : (ps qs : List Partition) → all_lines (ps ++ qs) ≡ all_lines ps ++ all_lines qs
unfolding all_lines
all_lines-append [] qs = refl
all_lines-append (p ∷ ps) qs = simp (all_lines-append ps qs, append_assoc)

newest_partition-event :
    (low : ℕ) (p : Partition) (ps : List Partition) (e : Event)
    → DatedAfter low (p ∷ ps)
    → last_event (newest_partition p ps).lines ≡ some e
    → newest_event (p ∷ ps) ≡ some e
unfolding newest_partition newest_event
newest_partition-event low p [] e d h = h
newest_partition-event low p (q ∷ qs) e d h =
    let newer : ltb p.date q.date ≡ true = ground arith in
    rw
      (newest_partition-event (suc p.date) q qs e d.1
        (subst (λ b. last_event (newest_partition (if b then q else p) qs).lines ≡ some e) newer h))
      refl

module _ (digest : Event → ℕ) (cutoff : ℕ) (trail : Trail) (intact : IsIntact digest trail) where
  abbrev removed : List Partition
  removed = keep_if (is_old cutoff) trail.partitions

  abbrev kept : List Partition
  kept = keep_if (λ p. not (is_old cutoff p)) trail.partitions

  lines_parts : all_lines trail.partitions ≡ all_lines removed ++ all_lines kept
  lines_parts =
      ap all_lines (kept_parts cutoff 0 trail.partitions intact.dated)
      ∙ all_lines-append removed kept

  -- The chain of what stays begins where the chain of what goes ends.
  kept-Clean :
      Clean digest
        (final_prev (checkpoint_hash trail.checkpoint) (all_lines removed))
        (all_lines kept)
  kept-Clean =
      Clean-drop digest _ (all_lines removed) (all_lines kept) (rw lines_parts at intact.clean)

  final_prev-removed :
      (e : Event)
      → newest_event removed ≡ some e
      → final_prev (checkpoint_hash trail.checkpoint) (all_lines removed) ≡ e.hash
  final_prev-removed e h = ground (
    arith,
    final_prev-last_event (checkpoint_hash trail.checkpoint) (all_lines removed),
    newest_event-lines removed,
  )

  new_checkpoint :
      (p : Partition) (ps : List Partition) (e : Event)
      → removed ≡ p ∷ ps
      → last_event (newest_partition p ps).lines ≡ some e
      → (after_checkpoint trail.checkpoint).0 < e.seq
      → (trim chained cutoff trail).checkpoint ≡ some (record { seq = e.seq; hash = e.hash })
  unfolding trim write_trim_checkpoint
  new_checkpoint p ps e r h s = rw (r, h, write_trim_checkpoint) (ground arith)

  trimmed :
      (p : Partition) (ps : List Partition) (e : Event)
      → removed ≡ p ∷ ps
      → last_event (newest_partition p ps).lines ≡ some e
      → (after_checkpoint trail.checkpoint).0 < e.seq
      → IsIntact digest (trim chained cutoff trail)
  unfolding trim
  trimmed p ps e r h s =
      let sorted : DatedAfter 0 removed =
        dated-keep_if (is_old cutoff) 0 trail.partitions intact.dated in
      let newest : newest_event removed ≡ some e =
        rw r (newest_partition-event 0 p ps e (rw r at sorted) h) in
      record {
        clean =
            subst (λ c. Clean digest (checkpoint_hash c) (all_lines kept))
              (sym (new_checkpoint p ps e r h s)) (rw (final_prev-removed e newest) at kept-Clean);
        later =
            LaterAccounted-drop (all_lines removed) (all_lines kept)
              (rw lines_parts at intact.later);
        dated = dated-keep_if (λ q. not (is_old cutoff q)) 0 trail.partitions intact.dated;
        terminated = All-keep_if _ (λ q. not (is_old cutoff q)) trail.partitions intact.terminated;
      }

Clean-unique :
    (digest : Event → ℕ) (p q : Option ℕ) (ls : List Line) (e : Event)
    → Clean digest p ls
    → Clean digest q ls
    → last_event ls ≡ some e
    → p ≡ q
unfolding last_event
Clean-unique digest p q [] e a b h = cc
Clean-unique digest p q (blank ∷ ls) e a b h = Clean-unique digest p q ls e a.1 b.1 h
Clean-unique digest p q (torn ∷ ls) e a b h = absurd (a.0)
Clean-unique digest p q (event f ∷ ls) e a b h = sym a.0.0 ∙ b.0.0

module _ (digest : Event → ℕ) where
  -- Retention that removes some partitions of an intact, chained trail, of which the newest holds
  -- an event that is newer than
  -- the checkpoint, keeps the trail intact, and what is left verifies from the checkpoint on.
  pub trim-IsIntact :
      (cutoff : ℕ) (trail : Trail) (p : Partition) (ps : List Partition) (e : Event)
      → IsIntact digest trail
      → keep_if (is_old cutoff) trail.partitions ≡ p ∷ ps
      → last_event (newest_partition p ps).lines ≡ some e
      → (after_checkpoint trail.checkpoint).0 < e.seq
      → IsIntact digest (trim chained cutoff trail)
        × ((verify digest chained (trim chained cutoff trail)).0 ≡ [])
  trim-IsIntact cutoff trail p ps e i r h s =
      let kept = trimmed digest cutoff trail i p ps e r h s in (kept, IsIntact-verify digest _ kept)

  -- On an intact, chained trail with no checkpoint yet, and with events left: if the newest
  -- partition that is removed holds no event, as after a crash before the first write of a day, and
  -- an older one that is removed holds one with a hash, then no checkpoint is written and the
  -- events that are left do not verify, though the trail was intact and nobody touched it.
  pub trim_gap :
      (cutoff : ℕ) (trail : Trail) (p : Partition) (ps : List Partition) (e f : Event) (x : ℕ)
      → IsIntact digest trail
      → trail.checkpoint ≡ none
      → keep_if (is_old cutoff) trail.partitions ≡ p ∷ ps
      → last_event (newest_partition p ps).lines ≡ none
      → newest_event (p ∷ ps) ≡ some e
      → e.hash ≡ some x
      → last_event (all_lines (keep_if (λ q. not (is_old cutoff q)) trail.partitions)) ≡ some f
      → (verify digest chained (trim chained cutoff trail)).0 ≢ []
  unfolding trim write_trim_checkpoint
  trim_gap cutoff trail p ps e f x i c r h older hash left ok =
      let (clean, all) = (verify_iff digest (trim chained cutoff trail)).0 ok in
      let none_written : (trim chained cutoff trail).checkpoint ≡ none =
        rw (r, h, write_trim_checkpoint) c in
      let from_none : Clean digest none
          (all_lines (keep_if (λ q. not (is_old cutoff q)) trail.partitions)) =
        subst
          (λ k.
            Clean digest (checkpoint_hash k)
              (all_lines (keep_if (λ q. not (is_old cutoff q)) trail.partitions)))
          none_written clean in
      let linked =
        rw (final_prev-removed digest cutoff trail i e (rw r older)) at
          (kept-Clean digest cutoff trail i) in
      cc (Clean-unique digest none e.hash _ f from_none linked left, hash)
