-- ===== src/Pipeline/Finish/Whole.antt =====
-- A job from its arrival to its end (dlpduck/pipeline.py, `run_job`).
use mathlib.Core.Path.{subst}
use dlpduck.Prelude.{
  ℕ, ◌≤◌, String, ◌≡◌, refl, sym, ◌∙◌, ◌⊎◌, inl, inr, Bool, true, false, Option, none, some, List,
  map, arith, str_eq,
}
use dlpduck.Document.{DocumentText}
use dlpduck.Run.{pure, ◌>>◌}
use dlpduck.Run.Does.{
  Does, Does-pure, Does-gets, Does-bind, Does-weaken, Does-given, Ended-map, Does-map,
}
use dlpduck.Pipeline.State.{JobContext, Manifest, IndexRow, Stores}
use dlpduck.Pipeline.Process.{Extraction, Scanned, Plugin}
use dlpduck.Pipeline.Commit.{not_before, is_completion, commit, commit_failed}
use dlpduck.Pipeline.Commit.Steps.{count_if}
use dlpduck.Pipeline.Commit.Underway.{Underway}
use dlpduck.Pipeline.Commit.Once.{IsCommitted, commit-Does}
use dlpduck.Pipeline.Commit.Retried.{commit_has_text, claimed}
use dlpduck.Pipeline.Finish.{conclude, finish_by, finish_staged}
use dlpduck.Pipeline.Finish.Processed.{IsReady, IsJudged, process-Does}
use dlpduck.Pipeline.Finish.Failing.{Failing, ready-Failing, IsFailed, commit_failed-Does}

module _ (job receipt : String) (since : Option ℕ) where
  -- The PDF is in staging, with a manifest that names the receipt, whose completion is on the trail at most once.
  abbrev pub IsHandled : Stores → Type 0
  IsHandled w =
      (w.staged ≡ true)
      × ((m : Manifest) × (w.manifest ≡ some m)
          × (m.receipt_id ≡ some receipt)
          × (count_if (is_completion job (some receipt) since) w.trail ≤ 1))

  module _ (today : ℕ) (rules : String) (on_degraded : Bool) (scan_text : DocumentText → Scanned)
      (enrichers sinks : List Plugin) where
    abbrev pub plugin_names : List String
    plugin_names = map (λ (p : Plugin). p.name) sinks

    -- Committed exactly once, or in the folder of failures.
    abbrev pub IsOver : JobContext → Stores → Type 0
    IsOver ctx w =
        (ctx.job_id ≡ job)
        × (IsCommitted ctx receipt since plugin_names w ⊎ IsFailed ctx receipt since w)

    IsReady-for :
        (ctx ctx' : JobContext) (w : Stores)
        → ctx'.job_id ≡ ctx.job_id
        → IsReady receipt since ctx w
        → IsReady receipt since ctx' w
    IsReady-for ctx ctx' w e (c, i) = (
      record {
        manifest = c.manifest;
        on_disk = c.on_disk;
        present = c.present;
        named = c.named;
        fresh = c.fresh;
        untold =
            subst (λ j. count_if (is_completion j (some receipt) since) w.trail ≡ 0) (sym e)
              c.untold;
        undelivered = c.undelivered;
      },
      i,
    )

    pub IsReady-IsHandled :
        (ctx : JobContext) (w : Stores)
        → ctx.job_id ≡ job
        → IsReady receipt since ctx w
        → IsHandled w
    IsReady-IsHandled ctx w e (c, i) = (
      c.present,
      (
        c.manifest,
        c.on_disk,
        c.named.0,
        subst (λ j. count_if (is_completion j (some receipt) since) w.trail ≤ 1) e
            (rw c.untold (ground arith)),
      ),
    )

    Failing-IsHandled :
        (ctx : JobContext) (w : Stores)
        → ctx.job_id ≡ job
        → Failing ctx receipt since w
        → IsHandled w
    Failing-IsHandled ctx w e (m, f) = (
      f.present,
      (
        m,
        f.on_disk,
        f.named,
        subst (λ j. count_if (is_completion j (some receipt) since) w.trail ≤ 1) e
            (rw f.untold (ground arith)),
      ),
    )

    Underway-IsHandled :
        (ctx : JobContext) (w : Stores)
        → ctx.job_id ≡ job
        → Underway ctx receipt since plugin_names w
        → IsHandled w
    Underway-IsHandled ctx w e (m, u) = (
      u.present,
      (
        m,
        u.on_disk,
        u.named.0,
        subst (λ j. count_if (is_completion j (some receipt) since) w.trail ≤ 1) e u.at_most,
      ),
    )

    module _ (r : str_eq receipt "" ≡ false) (t : not_before since today ≡ true) where
      commit-IsOver :
          (ctx : JobContext) (text : DocumentText)
          → ctx.job_id ≡ job
          → ctx.text ≡ some text
          → Does IsHandled
              (IsReady receipt since ctx)
              (commit today rules sinks ctx >> pure ctx)
              IsOver
      commit-IsOver ctx text e x =
          Does-bind {Mid = λ f w. IsCommitted ctx receipt since plugin_names w} _ _
            (record {
              at = λ n w h.
                  let under = claimed ctx receipt since plugin_names w h.0 in
                  Ended-map _ (commit today rules sinks ctx n w)
                    (λ w' k. Underway-IsHandled ctx w' e k)
                    (rw (commit_has_text today rules sinks ctx text x) (
                      (commit-Does ctx receipt since plugin_names today rules sinks under.0 r t
                          refl).at
                        n w under.1));
            })
            (λ f. Does-pure ctx (λ w h. (e, inl h)))

      failed-IsOver :
          (ctx : JobContext)
          → ctx.job_id ≡ job
          → Does IsHandled
              (IsReady receipt since ctx)
              (commit_failed today rules sinks ctx >> pure ctx)
              IsOver
      failed-IsOver ctx e =
          Does-bind {Mid = λ u w. IsFailed ctx receipt since w} _ _
            (Does-map (λ w h. Failing-IsHandled ctx w e h) (λ u w h. h)
              (Does-weaken (ready-Failing ctx receipt since)
                (commit_failed-Does ctx receipt since today rules sinks)))
            (λ u. Does-pure ctx (λ w h. (e, inr h)))

      conclude-Does :
          (ctx ctx' : JobContext)
          → ctx.job_id ≡ job
          → IsJudged receipt since ctx ctx'
          → Does IsHandled
              (IsReady receipt since ctx)
              (conclude today rules on_degraded scan_text enrichers sinks ctx')
              IsOver
      conclude-Does ctx ctx' e (q, inl f) =
          rw f (Does-weaken (λ w h. IsReady-for ctx ctx' w q h) (failed-IsOver ctx' (q ∙ e)))
      conclude-Does ctx ctx' e (q, inr (text, x, f)) =
          rw f (Does-weaken (λ w h. IsReady-for ctx ctx' w q h) (commit-IsOver ctx' text (q ∙ e) x))

      finish_by-Does :
          (ctx : JobContext) (extraction : Extraction) (o : Option IndexRow)
          → ctx.job_id ≡ job
          → o ≡ none
          → Does IsHandled
              (IsReady receipt since ctx)
              (finish_by today rules on_degraded scan_text enrichers sinks ctx extraction o)
              IsOver
      finish_by-Does ctx extraction (some prior) e q = absurd (cc q)
      finish_by-Does ctx extraction none e q =
          Does-bind {Mid = λ ctx' w. IsReady receipt since ctx w × IsJudged receipt since ctx ctx'}
            _ _
            (Does-map (λ w h. IsReady-IsHandled ctx w e h) (λ c w h. h)
              (process-Does receipt since today ctx on_degraded scan_text enrichers extraction))
            (λ ctx'. Does-given (conclude-Does ctx ctx' e))

      pub finish_staged-Does :
          (ctx : JobContext) (extraction : Extraction)
          → ctx.job_id ≡ job
          → Does IsHandled
              (IsReady receipt since ctx)
              (finish_staged today rules on_degraded scan_text enrichers sinks ctx extraction)
              IsOver
      unfolding finish_staged
      finish_staged-Does ctx extraction e =
          Does-bind {Mid = λ o w. IsReady receipt since ctx w × (o ≡ none)} _ _
            (Does-gets _ (λ w h. (h, h.1))) (λ o. Does-given (finish_by-Does ctx extraction o e))
