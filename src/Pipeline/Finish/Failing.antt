-- ===== src/Pipeline/Finish/Failing.antt =====
-- A job that has failed, and is put into the folder of failures (dlpduck/pipeline.py,
-- `commit_failed`).
use mathlib.Core.Path.{subst}
use dlpduck.Prelude.{
  ℕ, String, ◌≡◌, refl, sym, ◌∙◌, inl, inr, true, false, Option, none, some, List, [], ◌∷◌, str_eq,
  Option-cases,
}
use dlpduck.Run.{Run, durable, ◌>>=◌, ◌>>◌}
use dlpduck.Run.Does.{Does, Does-pure, Does-gets, Does-if, Does-durable, Does-bind}
use dlpduck.Pipeline.State.{JobContext, assessed, Manifest, Stores, load_manifest}
use dlpduck.Pipeline.Process.{Plugin}
use dlpduck.Pipeline.Commit.{
  with_step, checkpoint, snapshot, snapshot_assessment, is_completion, remove_staging,
  finish_receipt, commit_failed,
}
use dlpduck.Pipeline.Commit.Steps.{count_if, with_step-named}
use dlpduck.Pipeline.Commit.Once.{finish_none, finish_some, snapshot_there, snapshot_missing}
use dlpduck.Pipeline.Finish.Processed.{IsReady}

module _ (ctx : JobContext) (receipt : String) (since : Option ℕ) where
  -- Still staged under its receipt, and not said to be completed.
  pub record IsFailing (m : Manifest) (w : Stores) : Type 0 where
    pub on_disk : w.manifest ≡ some m
    pub present : w.staged ≡ true
    pub named : m.receipt_id ≡ some receipt
    pub untold : count_if (is_completion ctx.job_id (some receipt) since) w.trail ≡ 0
    pub unlisted : w.index ≡ none

  abbrev pub Failing : Stores → Type 0
  Failing w = (m : Manifest) × IsFailing m w

  pub ready-Failing : (w : Stores) → IsReady receipt since ctx w → Failing w
  ready-Failing w (c, i) = (
    c.manifest,
    record {
      on_disk = c.on_disk;
      present = c.present;
      named = c.named.0;
      untold = c.untold;
      unlisted = i;
    },
  )

  -- In the folder of failures with its reason, and no longer staged.
  pub record IsFailed (w : Stores) : Type 0 where
    pub held : w.failed_folder ≡ some ctx.reason
    pub released : (w.staged ≡ false) × (w.manifest ≡ none)
    pub untold : count_if (is_completion ctx.job_id (some receipt) since) w.trail ≡ 0
    pub unlisted : w.index ≡ none

  module _ (today : ℕ) (rules : String) (plugins : List Plugin) where
    abbrev Held : Manifest → Stores → Type 0
    Held m w = IsFailing m w × (w.failed_folder ≡ some ctx.reason)

    checkpoint-fails :
        (m m' : Manifest)
        → m'.receipt_id ≡ m.receipt_id
        → Does Failing (IsFailing m) (checkpoint m' assessed) (λ m'' w. IsFailing m'' w)
    unfolding checkpoint
    checkpoint-fails m m' e =
        Does-bind {Mid = λ u w. IsFailing (with_step assessed m') w} _ _
          (Does-durable _ (λ w h. (m, h))
            (λ w h. record {
              on_disk = refl;
              present = h.present;
              named = (with_step-named assessed m').0 ∙ e ∙ h.named;
              untold = h.untold;
              unlisted = h.unlisted;
            }))
          (λ u. Does-pure _ (λ w h. h))

    snapshot-fails :
        (m : Manifest)
        → Does Failing (IsFailing m) (snapshot_assessment rules ctx m) (λ m' w. IsFailing m' w)
    snapshot-fails m = elim (Option-cases m.assessment) [
      | inl e ↦
          subst (λ r. Does Failing (IsFailing m) r (λ m' w. IsFailing m' w))
            (sym (snapshot_missing ctx receipt since [] today rules plugins m e))
            (checkpoint-fails m (record m { assessment = some (snapshot rules ctx) }) refl)
      | inr (s, e) ↦
          subst (λ r. Does Failing (IsFailing m) r (λ m' w. IsFailing m' w))
            (sym (snapshot_there ctx receipt since [] today rules plugins m s e))
            (Does-pure m (λ w h. h))
    ]

    told :
        (m : Manifest) (f : List (String × String)) (w : Stores)
        → Held m w
        → Held m (record w { finished = f })
    told m f w (i, e) = (
      record {
        on_disk = i.on_disk;
        present = i.present;
        named = i.named;
        untold = i.untold;
        unlisted = i.unlisted;
      },
      e,
    )

    finish_receipt-fails :
        (m : Manifest) (outcome : String)
        → Does Failing (Held m) (finish_receipt today rules plugins outcome m) (λ u w. Held m w)
    finish_receipt-fails m outcome = elim (Option-cases m.receipt_id) [
      | inl e ↦
          subst (λ r. Does Failing (Held m) r (λ u w. Held m w))
            (sym (finish_none ctx receipt since [] today rules plugins m outcome e))
            (Does-pure tt (λ w h. h))
      | inr (r, e) ↦
          subst (λ r. Does Failing (Held m) r (λ u w. Held m w))
            (sym (finish_some ctx receipt since [] today rules plugins m outcome r e))
            (Does-if (str_eq r "") _ _ (λ q. Does-pure tt (λ w h. h))
              (λ q.
                Does-durable _ (λ w h. (m, h.0)) (λ w h. told m ((r, outcome) ∷ w.finished) w h)))
    ]

    loaded_failing : (m : Manifest) (w : Stores) → IsFailing m w → IsFailing (load_manifest w) w
    unfolding load_manifest
    loaded_failing m w i =
        let same : load_manifest w ≡ m = rw i.on_disk refl in
        subst (λ x. IsFailing x w) (sym same) i

    in_folder :
        (m : Manifest) (f : Option String) (w : Stores)
        → IsFailing m w
        → IsFailing m (record w { failed_folder = some f })
    in_folder m f w i = record {
      on_disk = i.on_disk;
      present = i.present;
      named = i.named;
      untold = i.untold;
      unlisted = i.unlisted;
    }

    IsFailed-at_last : (m : Manifest) (w : Stores) → Held m w → IsFailed (remove_staging w)
    unfolding remove_staging
    IsFailed-at_last m w (i, e) = record {
      held = e;
      released = (refl, refl);
      untold = i.untold;
      unlisted = i.unlisted;
    }

    abbrev from_snapshot : Manifest → Run Stores Unit
    from_snapshot m =
        durable (λ w. record w { failed_folder = some none })
        >> (durable (λ w. record w { failed_folder = some ctx.reason })
            >> (finish_receipt today rules plugins "failed" m >> durable remove_staging))

    from_snapshot-Does :
        (m : Manifest) → Does Failing (IsFailing m) (from_snapshot m) (λ u w. IsFailed w)
    from_snapshot-Does m =
        Does-bind {Mid = λ u w. IsFailing m w} _ _
          (Does-durable _ (λ w h. (m, h)) (λ w h. in_folder m none w h))
          (λ u.
            Does-bind {Mid = λ u w. Held m w} _ _
              (Does-durable _ (λ w h. (m, h)) (λ w h. (in_folder m ctx.reason w h, refl)))
              (λ u.
                Does-bind _ _ (finish_receipt-fails m "failed")
                  (λ u. Does-durable _ (λ w h. (m, h.0)) (λ w h. IsFailed-at_last m w h))))

    -- However it is cut, `commit_failed` has the job staged until it is in the folder of failures
    -- with its reason.
    pub commit_failed-Does :
        Does Failing Failing (commit_failed today rules plugins ctx) (λ u w. IsFailed w)
    unfolding commit_failed
    commit_failed-Does =
        Does-bind {Mid = λ m w. IsFailing m w} _
          (λ m. snapshot_assessment rules ctx m >>= from_snapshot)
          (Does-gets _ (λ w h. loaded_failing h.0 w h.1))
          (λ m. Does-bind _ from_snapshot (snapshot-fails m) from_snapshot-Does)
