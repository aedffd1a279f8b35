-- ===== src/Disposition.antt =====
-- dlpduck/disposition.py: the one policy for a first assessment and for every reassessment.
pub mod Policy
use dlpduck.Prelude.{
  String, Bool, true, false, ◌&&◌, Option, none, some, List, [], ◌∷◌, ltb, if◌then◌else◌, any_of,
}
use dlpduck.Document.{TextLine, Action, quarantine, flag, ignore, DlpHit, DocumentText}

pub data Disposition : Type 0 where
  pending archive quarantined failed : Disposition

abbrev pub is_quarantine : Action → Bool
is_quarantine quarantine = true
is_quarantine flag = false
is_quarantine ignore = false

abbrev pub no_lines : List TextLine → Bool
no_lines [] = true
no_lines (l ∷ ls) = false

-- any(h.action == "quarantine" for h in hits)
unfoldable pub any_quarantine : List DlpHit → Bool
any_quarantine hits = any_of (λ h. is_quarantine h.action) hits

by_hits : List DlpHit → Disposition × Option String
unfolding any_quarantine
by_hits hits = if any_quarantine hits then (quarantined, some "dlp_hit") else (archive, none)

unfoldable pub decide : DocumentText → List DlpHit → Bool → Disposition × Option String
unfolding by_hits
decide text hits quarantine_on_degraded =
    if quarantine_on_degraded
    then if ltb 0 text.failed_page_count
      then (quarantined, some "degraded_extraction")
      else if ltb 0 text.page_count && no_lines text.lines
      then (quarantined, some "no_text_extracted")
      else if text.degraded
      then (quarantined, some "degraded_extraction")
      else by_hits hits
    else by_hits hits
