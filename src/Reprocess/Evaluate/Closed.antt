-- ===== src/Reprocess/Evaluate/Closed.antt =====
-- What a reassessment may conclude (dlpduck/reprocess.py, `_evaluate`).
use dlpduck.Prelude.{
  String, ◌≡◌, refl, ◌≢◌, ◌↔◌, ◌⊎◌, inl, inr, true, false, Option, none, some, List, arith,
}
use dlpduck.Document.{DlpHit, DocumentText}
use dlpduck.Disposition.{Disposition, pending, archive, quarantined, failed, decide}
use dlpduck.Pipeline.Process.{Scanned, found, budget_exceeded, scan_raised}
use dlpduck.Reprocess.Rows.{Row}
use dlpduck.Reprocess.Evaluate.{
  escalate, deescalate, unchanged, Mode, rules, Evaluated, recorded_quality, is_quarantined,
  same_disposition, same_verdict, direction_of, verdict, conclude, evaluate_text, evaluate,
}

decide-degraded :
    (text : DocumentText) (hits : List DlpHit)
    → text.degraded ≡ true
    → (decide text hits true).0 ≡ quarantined
unfolding decide
decide-degraded text hits h = ground arith

same_disposition_iff : (a b : Disposition) → same_disposition a b ≡ true ↔ (a ≡ b)
same_disposition_iff pending pending = (λ h. refl, λ h. refl)
same_disposition_iff pending archive = (λ h. cc, λ h. cc)
same_disposition_iff pending quarantined = (λ h. cc, λ h. cc)
same_disposition_iff pending failed = (λ h. cc, λ h. cc)
same_disposition_iff archive pending = (λ h. cc, λ h. cc)
same_disposition_iff archive archive = (λ h. refl, λ h. refl)
same_disposition_iff archive quarantined = (λ h. cc, λ h. cc)
same_disposition_iff archive failed = (λ h. cc, λ h. cc)
same_disposition_iff quarantined pending = (λ h. cc, λ h. cc)
same_disposition_iff quarantined archive = (λ h. cc, λ h. cc)
same_disposition_iff quarantined quarantined = (λ h. refl, λ h. refl)
same_disposition_iff quarantined failed = (λ h. cc, λ h. cc)
same_disposition_iff failed pending = (λ h. cc, λ h. cc)
same_disposition_iff failed archive = (λ h. cc, λ h. cc)
same_disposition_iff failed quarantined = (λ h. cc, λ h. cc)
same_disposition_iff failed failed = (λ h. refl, λ h. refl)

is_quarantined_iff : (d : Disposition) → is_quarantined d ≡ true ↔ (d ≡ quarantined)
is_quarantined_iff pending = (λ h. cc, λ h. cc)
is_quarantined_iff archive = (λ h. cc, λ h. cc)
is_quarantined_iff quarantined = (λ h. refl, λ h. refl)
is_quarantined_iff failed = (λ h. cc, λ h. cc)

module _ (ruleset_version : String) where
  -- How the direction follows from the two dispositions and from what they rest on: an assessment
  -- escalates exactly when it newly quarantines, it de-escalates exactly when it no longer does,
  -- and
  -- it is unchanged exactly when the disposition, the recorded hits, the ruleset and, on a fresh
  -- extraction, the extraction's quality are all the same.
  pub direction_of_iff :
      (mode : Mode) (row : Row) (text : DocumentText) (hits : List DlpHit) (new : Disposition)
      → let direction = direction_of ruleset_version mode row text hits new in
        ((direction ≡ escalate) ↔ ((is_quarantined row.disposition ≡ false) × (new ≡ quarantined)))
        × ((direction ≡ deescalate)
            ↔ ((row.disposition ≡ quarantined) × (is_quarantined new ≡ false)))
        × ((direction ≡ unchanged)
            ↔ ((row.disposition ≡ new) × (same_verdict ruleset_version mode row text hits ≡ true)))
  unfolding direction_of
  direction_of_iff mode row text hits new =
      let same = same_disposition_iff row.disposition new in
      let old = is_quarantined_iff row.disposition in
      let now = is_quarantined_iff new in ground arith

-- No verdict, or quarantine, and no de-escalation.
abbrev pub StaysClosed : Evaluated → Type 0
StaysClosed e =
    ((e.new_disposition ≡ none) ⊎ (e.new_disposition ≡ some quarantined))
    × (e.outcome.direction ≢ deescalate)

verdict_degraded :
    (ruleset_version : String) (row : Row) (text : DocumentText) (hits : List DlpHit)
    → row.degraded ≡ true
    → StaysClosed (verdict ruleset_version true rules row text hits)
unfolding verdict direction_of
verdict_degraded version row text hits d =
    let held : (decide (recorded_quality row text) hits true).0 ≡ quarantined =
      decide-degraded (recorded_quality row text) hits d in
    rw held (inr refl, ground arith)

conclude_degraded :
    (ruleset_version : String) (row : Row) (text : DocumentText) (s : Scanned)
    → row.degraded ≡ true
    → StaysClosed (conclude ruleset_version true rules row text s)
unfolding conclude
conclude_degraded version row text (budget_exceeded e) d = (inl refl, λ h. cc)
conclude_degraded version row text (scan_raised e) d = (inl refl, λ h. cc)
conclude_degraded version row text (found hits) d = verdict_degraded version row text hits d

-- In the mode "rules", where degraded documents are to be quarantined, a row that is marked
-- degraded
-- is never found clean: its reassessment ends without a verdict or quarantines again, and it never
-- de-escalates, whatever the rules find and whatever the content store holds.
pub evaluate_degraded :
    (ruleset_version : String) (scan_text : DocumentText → Scanned) (row : Row)
    (content reread : Option DocumentText)
    → row.degraded ≡ true
    → StaysClosed (evaluate ruleset_version true scan_text rules row content reread)
unfolding evaluate evaluate_text
evaluate_degraded version scan_text row none reread d = (inl refl, λ h. cc)
evaluate_degraded version scan_text row (some text) reread d =
    conclude_degraded version row text (scan_text text) d
