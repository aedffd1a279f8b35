-- ===== src/Disposition/Policy.antt =====
-- When a document is archived (dlpduck/disposition.py).
use dlpduck.Prelude.{
  String, ◌≡◌, refl, ◌≢◌, ◌↔◌, ◌⊎◌, Bool, false, none, some, List, [], ◌∷◌, arith, All,
}
use dlpduck.Document.{Action, quarantine, flag, ignore, DlpHit, DocumentText}
use dlpduck.Disposition.{archive, quarantined, is_quarantine, no_lines, any_quarantine, decide}

-- The text was extracted whole: no page failed, a document with pages has lines, and nothing
-- degraded it.
pub record IsWhole (text : DocumentText) : Type 0 where
  pub no_failed_page : text.failed_page_count ≡ 0
  pub has_lines : (text.page_count ≡ 0) ⊎ (no_lines text.lines ≡ false)
  pub not_degraded : text.degraded ≡ false

is_quarantine_iff : (a : Action) → (is_quarantine a ≡ false) ↔ (a ≢ quarantine)
is_quarantine_iff quarantine = (λ h. absurd (cc h), λ h. absurd (h refl))
is_quarantine_iff flag = (λ h e. absurd (cc e), λ h. refl)
is_quarantine_iff ignore = (λ h e. absurd (cc e), λ h. refl)

any_quarantine_iff :
    (hits : List DlpHit)
    → (any_quarantine hits ≡ false) ↔ All (λ (h : DlpHit). h.action ≢ quarantine) hits
unfolding any_quarantine
any_quarantine_iff [] = (λ h. tt, λ h. refl)
any_quarantine_iff (h ∷ hits) =
    let here = is_quarantine_iff h.action in
    let more = any_quarantine_iff hits in
    (
      λ e. (here.0 (ground (arith, e)), more.0 (ground (arith, e))),
      λ a. ground (arith, here.1 a.0, more.1 a.1),
    )

decide_hits :
    (text : DocumentText) (hits : List DlpHit) (on_degraded : Bool)
    → ((decide text hits on_degraded ≡ (archive, none))
        ↔ ((any_quarantine hits ≡ false) × ((on_degraded ≡ false) ⊎ IsWhole text)))
      × ((decide text hits on_degraded ≡ (archive, none))
          ⊎ ((r : String) × (decide text hits on_degraded ≡ (quarantined, some r))))
unfolding decide
decide_hits text hits on_degraded = grind arith

-- A document is archived exactly when none of its hits asks for quarantine and, where degraded
-- documents are to be quarantined, its text was extracted whole; otherwise it is quarantined, with
-- a reason.
pub decide-archive_iff :
    (text : DocumentText) (hits : List DlpHit) (on_degraded : Bool)
    → ((decide text hits on_degraded ≡ (archive, none)) ↔ (
        All (λ (h : DlpHit). h.action ≢ quarantine) hits × ((on_degraded ≡ false) ⊎ IsWhole text)))
      × ((decide text hits on_degraded ≡ (archive, none))
          ⊎ ((r : String) × (decide text hits on_degraded ≡ (quarantined, some r))))
decide-archive_iff text hits on_degraded =
    grind (arith, decide_hits text hits on_degraded, any_quarantine_iff hits)
