-- ===== src/Pipeline/Commit/Retried.antt =====
-- Commits of one job, each cut where the process dies, until one returns (dlpduck/pipeline.py,
-- `commit`, as `resume_staged` calls it again).
use mathlib.Core.Path.{subst}
use dlpduck.Prelude.{
  ℕ, ◌≤◌, String, ◌≡◌, refl, sym, ◌⊎◌, inl, inr, true, false, Option, none, some, List, [], ◌∷◌,
  map, arith, str_eq, All,
}
use dlpduck.Document.{DocumentText}
use dlpduck.Run.{Progress, crashed, raised, going}
use dlpduck.Run.Does.{Ended, Ended-map, Ended-weaken}
use dlpduck.Pipeline.State.{
  JobContext, Step, pdf, audit, stores, emitted, has_step, Assessment, Manifest, Folder, Stores,
  load_manifest,
}
use dlpduck.Pipeline.Process.{Plugin}
use dlpduck.Pipeline.Commit.{snapshot, not_before, is_completion, commit_steps, commit}
use dlpduck.Pipeline.Commit.Steps.{count_if}
use dlpduck.Pipeline.Commit.Underway.{IsPrefix, Underway}
use dlpduck.Pipeline.Commit.Once.{IsCommitted, commit-Does}
use dlpduck.Pipeline.Commit.Decided.{
  IsDecided, loaded_decided, commit_steps-IsDecided, commit_steps-undecided,
}
use dlpduck.Pipeline.Finish.{restored}

abbrev pub go_on :
    Progress Stores Folder → (Stores → Progress Stores Folder) → Progress Stores Folder
go_on (crashed w) again = again w
go_on (raised e w) again = again w
go_on (going f n w) again = going f n w

-- A process that commits: after how many writes it dies, its day, its ruleset, its plugins with what
-- they raise in it, and the assessment that it comes to where none is in the manifest.
pub record Attempt : Type 0 where
  pub writes : ℕ
  pub today : ℕ
  pub rules : String
  pub plugins : List Plugin
  pub found : Assessment

-- `_resume_one` takes the assessment of the manifest where there is one.
abbrev pub assessment_of : Attempt → Option Assessment → Assessment
assessment_of k none = k.found
assessment_of k (some a) = a

-- The attempts to commit a job of this id and day, one after the other until one returns.
module _ (job : JobContext) where
  unfoldable pub commit_again : List Attempt → Stores → Progress Stores Folder
  unfolding load_manifest
  commit_again [] w = crashed w
  commit_again (k ∷ ks) w =
      let ctx = restored job (assessment_of k (load_manifest w).assessment) in
      go_on (commit k.today k.rules k.plugins ctx k.writes w) (commit_again ks)

pub commit_has_text :
    (today : ℕ) (rules : String) (plugins : List Plugin) (ctx : JobContext) (text : DocumentText)
    → ctx.text ≡ some text
    → commit today rules plugins ctx ≡ commit_steps today rules plugins ctx
unfolding commit
commit_has_text today rules plugins ctx text x = rw x refl

-- A job as the claim leaves it: nothing is recorded of it, delivered for it or said of its receipt.
pub record IsClaimed (ctx : JobContext) (receipt : String) (since : Option ℕ) (w : Stores)
    : Type 0 where
  pub manifest : Manifest
  pub on_disk : w.manifest ≡ some manifest
  pub present : w.staged ≡ true
  pub named : (manifest.receipt_id ≡ some receipt) × (manifest.received_at ≡ since)
  pub fresh : manifest.steps ≡ []
  pub untold : count_if (is_completion ctx.job_id (some receipt) since) w.trail ≡ 0
  pub undelivered : w.delivered ≡ []

pub claimed :
    (ctx : JobContext) (receipt : String) (since : Option ℕ) (names : List String) (w : Stores)
    → IsClaimed ctx receipt since w
    → Underway ctx receipt since names w
unfolding has_step
claimed ctx receipt since names w c =
    let nothing : (s : Step) → has_step s c.manifest.steps ≡ false = λ s. rw c.fresh refl in
    (
      c.manifest,
      record {
        on_disk = c.on_disk;
        present = c.present;
        named = c.named;
        none_yet = λ h. c.untold;
        at_most = rw c.untold (ground arith);
        once = λ h. cc (h, nothing audit);
        kept = λ h. cc (h, nothing pdf);
        stored = λ h. cc (h, nothing stores);
        quiet = λ h. c.undelivered;
        so_far = (names, rw c.undelivered refl);
        all_told = λ h. cc (h, nothing emitted);
      },
    )

-- The plugins of the attempt have these names, it is not before the day of the receipt, and what it
-- finds has a text.
abbrev pub IsTimely : Option ℕ → List String → Attempt → Type 0
IsTimely since names k =
    (map (λ (p : Plugin). p.name) k.plugins ≡ names)
    × (not_before since k.today ≡ true)
    × ((text : DocumentText) × (k.found.text ≡ some text))

Ended-both :
    {W A : Type 0} (K L : W → Type 0) (P Q : A → W → Type 0) (p : Progress W A)
    → Ended K P p
    → Ended L Q p
    → Ended (λ w. K w × L w) P p
Ended-both K L P Q (crashed w) h k = (h, k)
Ended-both K L P Q (raised e w) h k = (h, k)
Ended-both K L P Q (going a n w) h k = h

module _ (job : JobContext) (receipt : String) (since : Option ℕ) (names : List String)
    (r : str_eq receipt "" ≡ false) where
  -- Claimed and not assessed.
  abbrev IsWaiting : Stores → Type 0
  IsWaiting w = IsClaimed job receipt since w × ((load_manifest w).assessment ≡ none)

  -- Being committed with an assessment that the manifest has.
  abbrev IsBegun : Stores → Type 0
  IsBegun w =
      (a : Assessment) × (((text : DocumentText) × (a.text ≡ some text))
        × (Underway (restored job a) receipt since names w × IsDecided a w))

  abbrev InHand : Stores → Type 0
  InHand w = IsWaiting w ⊎ IsBegun w

  abbrev Done : Folder → Stores → Type 0
  Done f w = (a : Assessment) × IsCommitted (restored job a) receipt since names w

  settled :
      (p : Progress Stores Folder) (again : Stores → Progress Stores Folder)
      → Ended InHand Done p
      → ((w : Stores) → InHand w → Ended InHand Done (again w))
      → Ended InHand Done (go_on p again)
  settled (crashed w) again h k = k w h
  settled (raised e w) again h k = k w h
  settled (going f n w) again h k = h

  unassessed :
      (w : Stores) (m : Manifest)
      → w.manifest ≡ some m
      → (load_manifest w).assessment ≡ none
      → m.assessment ≡ none
  unfolding load_manifest
  unassessed w m on_disk fresh =
      let same : load_manifest w ≡ m = rw on_disk refl in
      subst (λ (x : Manifest). x.assessment ≡ none) same fresh

  restored-IsClaimed :
      (a : Assessment) (w : Stores)
      → IsClaimed job receipt since w
      → IsClaimed (restored job a) receipt since w
  restored-IsClaimed a w c = record {
    manifest = c.manifest;
    on_disk = c.on_disk;
    present = c.present;
    named = c.named;
    fresh = c.fresh;
    untold = c.untold;
    undelivered = c.undelivered;
  }

  first_attempt :
      (k : Attempt) (w : Stores)
      → IsTimely since names k
      → IsWaiting w
      → Ended InHand Done (commit k.today k.rules k.plugins (restored job k.found) k.writes w)
  first_attempt k w (same, t, (text, x)) (c, fresh) =
      let ctx = restored job k.found in
      let (m, u) = claimed ctx receipt since names w (restored-IsClaimed k.found w c) in
      let p = commit_steps k.today k.rules k.plugins ctx k.writes w in
      rw (commit_has_text k.today k.rules k.plugins ctx text x) (
        Ended-weaken
          (λ w' (h, d). elim d [
            | inl e ↦ inl (subst IsWaiting (sym e) (c, fresh))
            | inr d ↦ inr (snapshot k.rules ctx, ((text, x), (h, d)))
          ])
          (λ f w' h. (k.found, h)) p
          (Ended-both _ _ _ _ p
            ((commit-Does ctx receipt since names k.today k.rules k.plugins m r t same).at k.writes
              w u)
            ((commit_steps-undecided ctx receipt since names k.today k.rules k.plugins w c.manifest
                c.on_disk (unassessed w c.manifest c.on_disk fresh)).at
              k.writes w refl)))

  later_attempt :
      (k : Attempt) (w : Stores) (a : Assessment) (text : DocumentText)
      → IsTimely since names k
      → a.text ≡ some text
      → Underway (restored job a) receipt since names w
      → IsDecided a w
      → Ended InHand Done (commit k.today k.rules k.plugins (restored job a) k.writes w)
  later_attempt k w a text (same, t, has_text) x (m, u) d =
      let ctx = restored job a in
      let p = commit_steps k.today k.rules k.plugins ctx k.writes w in
      rw (commit_has_text k.today k.rules k.plugins ctx text x) (
        Ended-weaken (λ w' h. inr (a, ((text, x), h))) (λ f w' h. (a, h)) p
          (Ended-both _ _ _ _ p
            ((commit-Does ctx receipt since names k.today k.rules k.plugins m r t same).at k.writes
              w u)
            ((commit_steps-IsDecided a ctx receipt since names k.today k.rules k.plugins).at
              k.writes w d)))

  attempt :
      (k : Attempt) (w : Stores)
      → IsTimely since names k
      → InHand w
      → Ended InHand Done (
          commit k.today k.rules k.plugins
            (restored job (assessment_of k (load_manifest w).assessment))
            k.writes
            w)
  attempt k w timely (inl h) = rw h.1 (first_attempt k w timely h)
  attempt k w timely (inr (a, ((text, x), (u, d)))) =
      rw (loaded_decided a w d) (later_attempt k w a text timely x u d)

  all_attempts :
      (ks : List Attempt) (w : Stores)
      → All (IsTimely since names) ks
      → InHand w
      → Ended InHand Done (commit_again job ks w)
  unfolding commit_again
  all_attempts [] w timely h = h
  all_attempts (k ∷ ks) w (t, timely) h =
      settled _ (commit_again job ks) (attempt k w t h) (λ w' h'. all_attempts ks w' timely h')

-- What may be found of the job wherever a commit stops: its completion is on the trail at most
-- once, and no plugin was run twice or out of turn.
abbrev pub AtMostOnce : JobContext → String → Option ℕ → List String → Stores → Type 0
AtMostOnce job receipt since names w =
    (count_if (is_completion job.job_id (some receipt) since) w.trail ≤ 1)
    × IsPrefix w.delivered names

InHand-AtMostOnce :
    (job : JobContext) (receipt : String) (since : Option ℕ) (names : List String)
    (r : str_eq receipt "" ≡ false) (w : Stores)
    → InHand job receipt since names r w
    → AtMostOnce job receipt since names w
InHand-AtMostOnce job receipt since names r w (inl (c, fresh)) =
    (rw c.untold (ground arith), (names, rw c.undelivered refl))
InHand-AtMostOnce job receipt since names r w (inr (a, (x, ((m, u), d)))) = (u.at_most, u.so_far)

-- Take any attempts to commit a claimed job that is not yet assessed and has a receipt, each of which
-- dies or raises anywhere, until one returns. Each has its own day, not before that of the receipt,
-- its own ruleset, plugins of the same names in the same order, which may raise in one attempt and
-- not in another, and an assessment of its own with a text, of which it makes use where the
-- manifest has none yet. Wherever they stop, the completion of the job is on the trail at most once
-- and every emit plugin was run at most once, in order. When an attempt returns, both have happened
-- exactly once; for one assessment, the PDF is in the folder of its disposition and its index row
-- and content are stored; and the staging directory is gone.
pub commit_exactly_once :
    (job : JobContext) (receipt : String) (since : Option ℕ) (names : List String)
    (attempts : List Attempt) (w : Stores)
    → str_eq receipt "" ≡ false
    → All (IsTimely since names) attempts
    → IsClaimed job receipt since w
    → (load_manifest w).assessment ≡ none
    → Ended
        (AtMostOnce job receipt since names)
        (λ folder w'. (a : Assessment) × IsCommitted (restored job a) receipt since names w')
        (commit_again job attempts w)
commit_exactly_once job receipt since names attempts w r timely c fresh =
    Ended-map _ (commit_again job attempts w) (InHand-AtMostOnce job receipt since names r)
      (all_attempts job receipt since names r attempts w timely (inl (c, fresh)))
