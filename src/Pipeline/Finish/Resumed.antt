-- ===== src/Pipeline/Finish/Resumed.antt =====
-- A claimed job that another process finishes (dlpduck/pipeline.py, `_resume_one`).
use mathlib.Core.Path.{subst}
use dlpduck.Prelude.{
  ℕ, String, ◌≡◌, refl, sym, ap, ◌∙◌, Bool, true, false, not, ◌&&◌, Option, none, some, List, [],
  arith, str_eq,
}
use dlpduck.Document.{DocumentText}
use dlpduck.Metadata.{Fields}
use dlpduck.Run.Does.{
  Ended, Does, Does-pure, Does-gets, Does-if, Does-durable, Does-bind, Does-weaken, Does-given,
}
use dlpduck.Pipeline.State.{
  JobContext, Step, emit_started, emitted, has_step, Assessment, Manifest, load_manifest,
}
use dlpduck.Pipeline.Process.{Extraction, Scanned, Plugin}
use dlpduck.Pipeline.Commit.{not_before}
use dlpduck.Pipeline.Commit.Retried.{IsClaimed}
use dlpduck.Pipeline.Intake.{Intake, put_receipt, on_stores}
use dlpduck.Pipeline.Claim.Writes.{stores-put_receipt}
use dlpduck.Pipeline.Finish.{
  finish_staged, go_on_with, renew_receipt, resumed_context, resume_with, resume_one,
}
use dlpduck.Pipeline.Finish.Processed.{IsReady}
use dlpduck.Pipeline.Finish.Whole.{IsHandled, IsOver, IsReady-IsHandled, finish_staged-Does}
use dlpduck.Pipeline.Finish.Arriving.{on_stores-Does}

no_steps : (s : Step) (ts : List Step) → ts ≡ [] → has_step s ts ≡ false
unfolding has_step
no_steps s ts e = rw e refl

module _ (today : ℕ) (rules : String) (on_degraded : Bool) (scan_text : DocumentText → Scanned)
    (enrichers sinks : List Plugin) (job receipt filename : String) (since : Option ℕ) (mtime : ℕ)
    (derived : Fields) (extraction : Extraction) (m : Manifest) (r : str_eq receipt "" ≡ false)
    (t : not_before since today ≡ true) where
  abbrev ctx : JobContext
  ctx = resumed_context today rules on_degraded scan_text enrichers sinks job mtime derived m

  -- Claimed, with this manifest, and not assessed.
  abbrev pub IsWaiting : Intake → Type 0
  IsWaiting w = IsReady receipt since ctx w.stores × (w.stores.manifest ≡ some m)

  renewed : (x : String) (w : Intake) → IsWaiting w → IsWaiting (put_receipt x filename w)
  renewed x w h = rw (stores-put_receipt x filename w).0 h

  abbrev Handled : Intake → Type 0
  Handled w = IsHandled job receipt since w.stores

  abbrev Over : JobContext → Intake → Type 0
  Over c w = IsOver job receipt since today rules on_degraded scan_text enrichers sinks c w.stores

  waiting-Handled : (w : Intake) → IsWaiting w → Handled w
  waiting-Handled w h =
      IsReady-IsHandled job receipt since today rules on_degraded scan_text enrichers sinks ctx
        w.stores refl h.0

  renew_receipt-Does :
      (o : Option String)
      → Does Handled IsWaiting
          (renew_receipt today rules on_degraded scan_text enrichers sinks filename m o)
          (λ u w. IsWaiting w)
  renew_receipt-Does none = Does-pure tt (λ w h. h)
  renew_receipt-Does (some x) =
      Does-if (str_eq x "") _ _ (λ e. Does-pure tt (λ w h. h))
        (λ e. Does-durable _ waiting-Handled (λ w h. renewed x w h))

  go_on_with-Does :
      (o : Option Assessment)
      → o ≡ none
      → Does Handled IsWaiting
          (on_stores
            (go_on_with today rules on_degraded scan_text enrichers sinks ctx extraction o))
          Over
  go_on_with-Does (some x) e = absurd (cc e)
  go_on_with-Does none e =
      Does-weaken (λ w h. h.0)
        (on_stores-Does
          (finish_staged today rules on_degraded scan_text enrichers sinks ctx extraction)
          (finish_staged-Does job receipt since today rules on_degraded scan_text enrichers sinks r
            t ctx extraction refl))

  abbrev Resumed : Option JobContext → Intake → Type 0
  Resumed o w = (c : JobContext) × (o ≡ some c) × Over c w

  resume_with-Does :
      m.assessment ≡ none
      → m.steps ≡ []
      → Does Handled IsWaiting
          (resume_with today rules on_degraded scan_text enrichers sinks true job filename mtime
            derived extraction m)
          Resumed
  resume_with-Does a s =
      Does-if (has_step emit_started m.steps && not (has_step emitted m.steps)) _ _
        (λ e. absurd (ground (arith, e, no_steps emit_started m.steps s)))
        (λ e. Does-bind {Mid = λ u w. IsWaiting w} _ _ (renew_receipt-Does m.receipt_id) (λ u.
          Does-bind _ _ (go_on_with-Does m.assessment a) (λ c. Does-pure _ (λ w h. (c, refl, h)))))

  loaded_waiting : (w : Intake) → IsWaiting w → load_manifest w.stores ≡ m
  unfolding load_manifest
  loaded_waiting w h = rw h.1 refl

  resume_one-Does :
      m.assessment ≡ none
      → m.steps ≡ []
      → Does Handled IsWaiting
          (resume_one today rules on_degraded scan_text enrichers sinks true job filename mtime
            derived extraction)
          Resumed
  unfolding resume_one
  resume_one-Does a s =
      Does-bind {Mid = λ m' w. IsWaiting w × (m' ≡ m)} _ _
        (Does-gets _ (λ w h. (h, loaded_waiting w h)))
        (λ m'. Does-given (λ e.
          subst
            (λ x.
              Does Handled IsWaiting
                (resume_with today rules on_degraded scan_text enrichers sinks true job filename
                  mtime derived extraction x)
                Resumed)
            (sym e) (resume_with-Does a s)))

same_manifest :
    (m k : Manifest) (o : Option Manifest) → o ≡ some m → o ≡ some k → k.steps ≡ [] → m.steps ≡ []
same_manifest m k o e f g = let same : m ≡ k = cc (e, f) in ap (λ (x : Manifest). x.steps) same ∙ g

-- A job that is claimed and not yet assessed or in the index, found under the id of its document,
-- not before the day of its receipt, whose id is not blank: wherever `_resume_one` is cut, and
-- whatever it raises, the job is staged under its receipt with its completion on the trail at most
-- once. When it returns, it returns the job, which is committed, with its completion once on the
-- trail, or is in the folder of failures.
pub resume_one_whole :
    (today : ℕ) (rules : String) (on_degraded : Bool) (scan_text : DocumentText → Scanned)
    (enrichers sinks : List Plugin) (job receipt filename : String) (since : Option ℕ) (mtime : ℕ)
    (derived : Fields) (extraction : Extraction) (m : Manifest) (n : ℕ) (w : Intake)
    → str_eq receipt "" ≡ false
    → not_before since today ≡ true
    → m.assessment ≡ none
    → w.stores.manifest ≡ some m
    → w.stores.index ≡ none
    → IsClaimed
        (resumed_context today rules on_degraded scan_text enrichers sinks job mtime derived m)
        receipt
        since
        w.stores
    → Ended
        (λ w'. IsHandled job receipt since w'.stores)
        (λ o w'.
          (c : JobContext) × (o ≡ some c)
          × IsOver job receipt since today rules on_degraded scan_text enrichers sinks c w'.stores)
        (resume_one today rules on_degraded scan_text enrichers sinks true job filename mtime
          derived extraction n w)
resume_one_whole today rules on_degraded scan_text enrichers sinks job receipt filename since mtime
      derived extraction m n w r t a d i c =
    (resume_one-Does today rules on_degraded scan_text enrichers sinks job receipt filename since
        mtime derived extraction m r t a
        (same_manifest m c.manifest w.stores.manifest d c.on_disk c.fresh)).at
      n w ((c, i), d)
