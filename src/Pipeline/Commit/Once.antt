-- ===== src/Pipeline/Commit/Once.antt =====
-- A commit that is cut anywhere and run again (dlpduck/pipeline.py, `commit`).
use mathlib.Core.Path.{subst}
use dlpduck.Prelude.{
  ℕ, String, ◌≡◌, refl, sym, ◌⊎◌, inl, inr, true, false, Option, none, some, List, ◌∷◌, map, str_eq,
  if◌then◌else◌, Option-cases,
}
use dlpduck.Run.{Run, pure, durable, ◌>>=◌, ◌>>◌}
use dlpduck.Run.Does.{Does, Does-pure, Does-gets, Does-if, Does-durable, Does-bind}
use dlpduck.Pipeline.State.{
  JobContext, Step, assessed, pdf, audit, stores, emitted, has_step, Assessment, Manifest, Folder,
  Stores, load_manifest, holds_pdf,
}
use dlpduck.Pipeline.Process.{Plugin}
use dlpduck.Pipeline.Commit.{
  with_step, checkpoint, snapshot, snapshot_assessment, not_before, folder_of, remove_staging,
  place_pdf, audit_completion, write_stores, emit, finish_receipt, disposition_name, commit_steps,
}
use dlpduck.Pipeline.Commit.Underway.{completions, IsStored, IsUnderway, Underway, advance, Grown}
use dlpduck.Pipeline.Commit.Writes.{place_pdf-Does, audit_completion-Does, write_stores-Does}
use dlpduck.Pipeline.Commit.Emit.{emit-Does}

module _ (ctx : JobContext) (receipt : String) (since : Option ℕ) (names : List String) where
  -- What has been done once the staging directory is gone.
  pub record IsCommitted (w : Stores) : Type 0 where
    pub once : completions ctx receipt since names w ≡ 1
    pub delivered_all : w.delivered ≡ names
    pub stored : IsStored ctx receipt since names w
    pub placed : holds_pdf (folder_of ctx.disposition) w ≡ true
    pub released : (w.staged ≡ false) × (w.manifest ≡ none)

  module _ (today : ℕ) (rules : String) (plugins : List Plugin) where
    abbrev pub Safe : Stores → Type 0
    Safe w = Underway ctx receipt since names w ⊎ IsCommitted w

    -- The receipt's outcome and the folder of failures are of no account here.
    pub unaffected :
        (m : Manifest) (f : List (String × String)) (g : Option (Option String)) (w : Stores)
        → IsUnderway ctx receipt since names m w
        → IsUnderway ctx receipt since names m (record w { finished = f; failed_folder = g })
    unfolding holds_pdf
    unaffected m f g w i = record {
      on_disk = i.on_disk;
      present = i.present;
      named = i.named;
      none_yet = i.none_yet;
      at_most = i.at_most;
      once = i.once;
      kept = i.kept;
      stored = i.stored;
      quiet = i.quiet;
      so_far = i.so_far;
      all_told = i.all_told;
    }

    pub finish_none :
        (m : Manifest) (outcome : String)
        → m.receipt_id ≡ none
        → finish_receipt today rules plugins outcome m ≡ pure tt
    unfolding finish_receipt
    finish_none m outcome e = rw e refl

    pub finish_some :
        (m : Manifest) (outcome r : String)
        → m.receipt_id ≡ some r
        → finish_receipt today rules plugins outcome m ≡ (
            if str_eq r ""
            then pure tt
            else durable (λ w. record w { finished = (r, outcome) ∷ w.finished }))
    unfolding finish_receipt
    finish_some m outcome r e = rw e refl

    pub finish_receipt-Does :
        (m : Manifest) (outcome : String)
        → Does
            (Underway ctx receipt since names)
            (IsUnderway ctx receipt since names m)
            (finish_receipt today rules plugins outcome m)
            (λ u w. IsUnderway ctx receipt since names m w)
    finish_receipt-Does m outcome = elim (Option-cases m.receipt_id) [
      | inl e ↦
          subst
            (λ r.
              Does (Underway ctx receipt since names) (IsUnderway ctx receipt since names m) r
                (λ u w. IsUnderway ctx receipt since names m w))
            (sym (finish_none m outcome e)) (Does-pure tt (λ w h. h))
      | inr (r, e) ↦
          subst
            (λ r.
              Does (Underway ctx receipt since names) (IsUnderway ctx receipt since names m) r
                (λ u w. IsUnderway ctx receipt since names m w))
            (sym (finish_some m outcome r e))
            (Does-if (str_eq r "") _ _ (λ q. Does-pure tt (λ w h. h))
              (λ q.
                Does-durable _ (λ w h. (m, h))
                  (λ w h. unaffected m ((r, outcome) ∷ w.finished) w.failed_folder w h)))
    ]

    pub assessed_now :
        (m : Manifest) (a : Assessment) (w : Stores)
        → IsUnderway ctx receipt since names m w
        → IsUnderway ctx receipt since names
            (record m { assessment = some a })
            (record w { manifest = some (record m { assessment = some a }) })
    unfolding holds_pdf
    assessed_now m a w i = record {
      on_disk = refl;
      present = i.present;
      named = i.named;
      none_yet = i.none_yet;
      at_most = i.at_most;
      once = i.once;
      kept = i.kept;
      stored = i.stored;
      quiet = i.quiet;
      so_far = i.so_far;
      all_told = i.all_told;
    }

    pub snapshot_there :
        (m : Manifest) (a : Assessment)
        → m.assessment ≡ some a
        → snapshot_assessment rules ctx m ≡ pure m
    unfolding snapshot_assessment
    snapshot_there m a e = rw e refl

    pub snapshot_missing :
        (m : Manifest)
        → m.assessment ≡ none
        → snapshot_assessment rules ctx m
          ≡ checkpoint (record m { assessment = some (snapshot rules ctx) }) assessed
    unfolding snapshot_assessment
    snapshot_missing m e = rw e refl

    pub snapshot_taken :
        (m : Manifest)
        → Does
            (Underway ctx receipt since names)
            (IsUnderway ctx receipt since names m)
            (checkpoint (record m { assessment = some (snapshot rules ctx) }) assessed)
            (λ m' w. IsUnderway ctx receipt since names m' w)
    unfolding checkpoint
    snapshot_taken m =
        Does-bind
          {Mid = λ u w.
            IsUnderway ctx receipt since names
              (with_step assessed (record m { assessment = some (snapshot rules ctx) })) w}
          _ _
          (Does-durable _ (λ w h. (m, h))
            (λ w h.
              advance ctx receipt since names (record m { assessment = some (snapshot rules ctx) })
                assessed _ (assessed_now m (snapshot rules ctx) w h) tt))
          (λ u. Does-pure _ (λ w h. h))

    pub snapshot-Does :
        (m : Manifest)
        → Does
            (Underway ctx receipt since names)
            (IsUnderway ctx receipt since names m)
            (snapshot_assessment rules ctx m)
            (λ m' w. IsUnderway ctx receipt since names m' w)
    snapshot-Does m = elim (Option-cases m.assessment) [
      | inr (a, e) ↦
          subst
            (λ r.
              Does (Underway ctx receipt since names) (IsUnderway ctx receipt since names m) r
                (λ m' w. IsUnderway ctx receipt since names m' w))
            (sym (snapshot_there m a e)) (Does-pure m (λ w h. h))
      | inl e ↦
          subst
            (λ r.
              Does (Underway ctx receipt since names) (IsUnderway ctx receipt since names m) r
                (λ m' w. IsUnderway ctx receipt since names m' w))
            (sym (snapshot_missing m e)) (snapshot_taken m)
    ]

    pub Does-Grown :
        {B : Type 0} (s : Step) (m m' : Manifest) (r : Run Stores B) (Post : B → Stores → Type 0)
        → (has_step s m'.steps ≡ true
            → ((t : Step) → has_step t m.steps ≡ true → has_step t m'.steps ≡ true)
            → Does
                (Underway ctx receipt since names)
                (IsUnderway ctx receipt since names m')
                r
                Post)
        → Does
            (Underway ctx receipt since names)
            (λ w. Grown ctx receipt since names s m m' w)
            r
            Post
    Does-Grown s m m' r Post k = record { at = λ n w h. (k h.has h.keeps).at n w h.underway }

    pub committed :
        (m : Manifest) (w : Stores)
        → has_step pdf m.steps ≡ true
        → has_step audit m.steps ≡ true
        → has_step stores m.steps ≡ true
        → has_step emitted m.steps ≡ true
        → IsUnderway ctx receipt since names m w
        → IsCommitted (remove_staging w)
    unfolding remove_staging holds_pdf
    committed m w p a s e i = record {
      once = i.once a;
      delivered_all = i.all_told e;
      stored = i.stored s;
      placed = i.kept p;
      released = (refl, refl);
    }

    pub loaded :
        (m : Manifest) (w : Stores)
        → IsUnderway ctx receipt since names m w
        → IsUnderway ctx receipt since names (load_manifest w) w
    unfolding load_manifest
    loaded m w i =
        let same : load_manifest w ≡ m = rw i.on_disk refl in
        subst (λ x. IsUnderway ctx receipt since names x w) (sym same) i

    abbrev pub home : Folder
    home = folder_of ctx.disposition

    -- The steps that are left, from each of them on.
    abbrev pub from_release : Manifest → Run Stores Folder
    from_release m =
        finish_receipt today rules plugins (disposition_name today rules plugins ctx.disposition) m
        >> (durable (λ w. record w { failed_folder = none })
            >> (durable remove_staging >> pure home))

    abbrev pub from_emit : Manifest → Run Stores Folder
    from_emit m = emit today rules plugins ctx m >>= from_release

    abbrev pub from_stores : Manifest → Run Stores Folder
    from_stores m = write_stores today rules plugins ctx home m >>= from_emit

    abbrev pub from_audit : Manifest → Run Stores Folder
    from_audit m = audit_completion today rules plugins ctx m >>= from_stores

    abbrev pub from_pdf : Manifest → Run Stores Folder
    from_pdf m = place_pdf today rules plugins home m >>= from_audit

    pub from_release-Does :
        (m : Manifest)
        → has_step pdf m.steps ≡ true
        → has_step audit m.steps ≡ true
        → has_step stores m.steps ≡ true
        → has_step emitted m.steps ≡ true
        → Does
            (Underway ctx receipt since names)
            (IsUnderway ctx receipt since names m)
            (from_release m)
            (λ folder w. IsCommitted w)
    from_release-Does m p a s e = Does-bind _ _ (finish_receipt-Does m _) (λ u.
        Does-bind {Mid = λ v w. IsUnderway ctx receipt since names m w} _ _
          (Does-durable _ (λ w h. (m, h)) (λ w h. unaffected m w.finished none w h))
          (λ v.
            Does-bind {Mid = λ v w. IsCommitted w} _ _
              (Does-durable _ (λ w h. (m, h)) (λ w h. committed m w p a s e h))
              (λ v. Does-pure home (λ w h. h))))

    pub from_emit-Does :
        (m : Manifest)
        → map (λ (p : Plugin). p.name) plugins ≡ names
        → has_step pdf m.steps ≡ true
        → has_step audit m.steps ≡ true
        → has_step stores m.steps ≡ true
        → Does
            (Underway ctx receipt since names)
            (IsUnderway ctx receipt since names m)
            (from_emit m)
            (λ folder w. IsCommitted w)
    from_emit-Does m n p a s =
        Does-bind _ from_release (emit-Does ctx receipt since names today rules plugins m n) (λ m'.
          Does-Grown emitted m m' (from_release m') _
            (λ h k. from_release-Does m' (k pdf p) (k audit a) (k stores s) h))

    pub from_audit-Does :
        (m : Manifest)
        → str_eq receipt "" ≡ false
        → not_before since today ≡ true
        → map (λ (p : Plugin). p.name) plugins ≡ names
        → has_step pdf m.steps ≡ true
        → Does
            (Underway ctx receipt since names)
            (IsUnderway ctx receipt since names m)
            (from_audit m)
            (λ folder w. IsCommitted w)
    from_audit-Does m r t n p =
        Does-bind _ from_stores
          (audit_completion-Does ctx receipt since names today rules plugins m r t)
          (λ m₁. Does-Grown audit m m₁ (from_stores m₁) _ (λ a k.
            Does-bind _ from_emit (write_stores-Does ctx receipt since names today rules plugins m₁)
              (λ m₂.
                Does-Grown stores m₁ m₂ (from_emit m₂) _
                  (λ s j. from_emit-Does m₂ n (j pdf (k pdf p)) (j audit a) s))))

    pub commit-Does :
        (m : Manifest)
        → str_eq receipt "" ≡ false
        → not_before since today ≡ true
        → map (λ (p : Plugin). p.name) plugins ≡ names
        → Does
            (Underway ctx receipt since names)
            (IsUnderway ctx receipt since names m)
            (commit_steps today rules plugins ctx)
            (λ folder w. IsCommitted w)
    unfolding commit_steps
    commit-Does m r t n =
        Does-bind {Mid = λ m' w. IsUnderway ctx receipt since names m' w} _
          (λ m'. snapshot_assessment rules ctx m' >>= from_pdf) (Does-gets _ (loaded m))
          (λ m'. Does-bind _ from_pdf (snapshot-Does m') (λ m₁.
            Does-bind _ from_audit (place_pdf-Does ctx receipt since names today rules plugins m₁)
              (λ m₂. Does-Grown pdf m₁ m₂ (from_audit m₂) _ (λ p k. from_audit-Does m₂ r t n p))))
