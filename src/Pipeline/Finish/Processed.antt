-- ===== src/Pipeline/Finish/Processed.antt =====
-- What processing a claimed job leaves (dlpduck/pipeline.py, `process`).
use dlpduck.Prelude.{
  ℕ, String, ◌≡◌, refl, ◌⊎◌, inl, inr, Bool, true, false, Option, none, some, List, [], ◌∷◌, arith,
  Option-cases,
}
use dlpduck.Document.{DocumentText}
use dlpduck.Disposition.{decide}
use dlpduck.Run.Does.{Does, Does-pure, Does-raise, Does-if, Does-durable, Does-bind, Ended-handle}
use dlpduck.Pipeline.State.{JobContext, JobEvent, failure, plugin_failed, Stores}
use dlpduck.Pipeline.Process.{
  Extraction, extracted, too_many_pages, encrypted, extraction_failed, Scanned, found,
  budget_exceeded, scan_raised, Plugin, log, run_plugins, no_effect, give_up, dispose,
  assess_scanned, assess, process,
}
use dlpduck.Pipeline.Commit.{is_completion}
use dlpduck.Pipeline.Commit.Steps.{count_if-snoc}
use dlpduck.Pipeline.Commit.Retried.{IsClaimed}
use dlpduck.Pipeline.Finish.{is_failed}

module _ (receipt : String) (since : Option ℕ) where
  -- Claimed, and not in the index.
  abbrev pub IsReady : JobContext → Stores → Type 0
  IsReady ctx w = IsClaimed ctx receipt since w × (w.index ≡ none)

  pub log-IsReady :
      (ctx : JobContext) (e : JobEvent) (w : Stores)
      → is_completion ctx.job_id (some receipt) since e ≡ false
      → IsReady ctx w
      → IsReady ctx (log e w)
  log-IsReady ctx e w o (c, i) = (
    record {
      manifest = c.manifest;
      on_disk = c.on_disk;
      present = c.present;
      named = c.named;
      fresh = c.fresh;
      untold = ground (
        arith,
        o,
        c.untold,
        count_if-snoc (is_completion ctx.job_id (some receipt) since) w.trail e,
      );
      undelivered = c.undelivered;
    },
    i,
  )

  -- The context still is of the job; it has failed, or has a text.
  abbrev pub IsJudged : JobContext → JobContext → Type 0
  IsJudged ctx ctx' =
      (ctx'.job_id ≡ ctx.job_id)
      × ((is_failed ctx'.disposition ≡ true)
          ⊎ ((text : DocumentText) × (ctx'.text ≡ some text)
              × (is_failed ctx'.disposition ≡ false)))

  abbrev Judged : JobContext → JobContext → Stores → Type 0
  Judged ctx ctx' w = IsReady ctx w × IsJudged ctx ctx'

  module _ (today : ℕ) (ctx : JobContext) where
    failure_is_other :
        (job_id : String) (reason : Option String)
        → is_completion ctx.job_id (some receipt) since (failure today job_id reason) ≡ false
    unfolding is_completion
    failure_is_other job_id reason = refl

    plugin_is_other :
        (name error : String)
        → is_completion ctx.job_id (some receipt) since (plugin_failed today ctx.job_id name error)
          ≡ false
    unfolding is_completion
    plugin_is_other name error = refl

    give_up-Does :
        (ctx' : JobContext) (reason : String)
        → ctx'.job_id ≡ ctx.job_id
        → Does (IsReady ctx) (IsReady ctx) (give_up today ctx' reason) (Judged ctx)
    unfolding give_up
    give_up-Does ctx' reason e =
        Does-bind {Mid = λ u w. IsReady ctx w} _ _
          (Does-durable _ (λ w h. h)
            (λ w h.
              log-IsReady ctx (failure today ctx'.job_id (some reason)) w
                (failure_is_other ctx'.job_id (some reason)) h))
          (λ u. Does-pure _ (λ w h. (h, (e, inl refl))))

    run_plugins-Does :
        (ps : List Plugin)
        → Does
            (IsReady ctx)
            (IsReady ctx)
            (run_plugins today ctx.job_id no_effect ps)
            (λ u w. IsReady ctx w)
    unfolding run_plugins
    run_plugins-Does [] = Does-pure tt (λ w h. h)
    run_plugins-Does (p ∷ ps) =
        Does-bind {Mid = λ u w. IsReady ctx w} _ _ (Does-durable _ (λ w h. h) (λ w h. h)) (λ u.
          elim (Option-cases p.outcome) [
            | inl o ↦ rw o (run_plugins-Does ps)
            | inr (error, o) ↦ rw o (
                Does-bind {Mid = λ v w. IsReady ctx w} _ _
                  (Does-durable _ (λ w h. h)
                    (λ w h.
                      log-IsReady ctx (plugin_failed today ctx.job_id p.name error) w
                        (plugin_is_other p.name error) h))
                  (λ v.
                    Does-if p.critical _ _ (λ c. Does-raise p.name (λ w h. h))
                      (λ c. run_plugins-Does ps)))
          ])

    dispose_judges :
        (on_degraded : Bool) (ctx' : JobContext) (text : DocumentText)
        → (ctx'.job_id ≡ ctx.job_id) × (ctx'.text ≡ some text)
        → IsJudged ctx (dispose on_degraded ctx' text)
    unfolding dispose decide
    dispose_judges on_degraded ctx' text e = ground (arith, e.0, e.1)

    module _ (on_degraded : Bool) (scan_text : DocumentText → Scanned)
        (enrichers : List Plugin) where
      assess_scanned-Does :
          (text : DocumentText) (s : Scanned)
          → Does
              (IsReady ctx)
              (IsReady ctx)
              (assess_scanned today on_degraded scan_text enrichers
                (record ctx { text = some text })
                text
                s)
              (Judged ctx)
      assess_scanned-Does text (budget_exceeded rule_id) = give_up-Does _ _ refl
      assess_scanned-Does text (scan_raised error) = give_up-Does _ _ refl
      assess_scanned-Does text (found hits) = record {
        at = λ n w h.
            Ended-handle (run_plugins today ctx.job_id no_effect enrichers n w) _ _ n
              (λ u. Does-pure _ (λ w' h'. (
                h',
                dispose_judges on_degraded (record ctx { text = some text; hits = hits }) text
                    (refl, refl),
              )))
              (λ e. give_up-Does (record ctx { text = some text; hits = hits }) _ refl)
              ((run_plugins-Does enrichers).at n w h);
      }

      -- Processing a claimed job, cut anywhere, leaves it claimed, and gives a verdict with a text
      -- or a failure.
      pub process-Does :
          (extraction : Extraction)
          → Does
              (IsReady ctx)
              (IsReady ctx)
              (process today on_degraded scan_text enrichers ctx extraction)
              (Judged ctx)
      unfolding process assess
      process-Does too_many_pages = give_up-Does ctx _ refl
      process-Does encrypted = give_up-Does ctx _ refl
      process-Does (extraction_failed error) = give_up-Does ctx _ refl
      process-Does (extracted text) = assess_scanned-Does text (scan_text text)
