-- ===== src/Pipeline/Commit/Decided.antt =====
-- The assessment in the manifest of a job that is being committed (dlpduck/pipeline.py, `commit`).
use mathlib.Core.Path.{subst}
use dlpduck.Prelude.{
  ℕ, String, ◌≡◌, refl, sym, ◌∙◌, ◌⊎◌, inl, inr, not, ◌&&◌, ◌||◌, Option, none, some, List, [], ◌∷◌,
  str_eq, if◌then◌else◌, Bool-cases, Option-cases,
}
use dlpduck.Run.{pure, durable, ◌>>=◌, ◌>>◌}
use dlpduck.Run.Does.{
  Does, Does-pure, Does-raise, Does-gets, Does-if, Does-durable, Does-bind, Does-weaken, Does-given,
  Does-map,
}
use dlpduck.Pipeline.State.{
  JobContext, Step, assessed, pdf, audit_started, audit, stores, emit_started, emitted, has_step,
  Assessment, Manifest, Folder, completed, Stores, load_manifest,
}
use dlpduck.Pipeline.Process.{Plugin, log, run_plugins}
use dlpduck.Pipeline.Commit.{
  with_step, checkpoint, snapshot, snapshot_assessment, folder_of, copy_pdf, place_pdf,
  audit_completion, write_stores, deliver, emit, finish_receipt, disposition_name, commit_steps,
}
use dlpduck.Pipeline.Commit.Once.{
  finish_none, finish_some, snapshot_there, snapshot_missing, from_release, from_emit, from_stores,
  from_audit, from_pdf,
}

with_step-assessment : (s : Step) (m : Manifest) → (with_step s m).assessment ≡ m.assessment
unfolding with_step
with_step-assessment s m = elim (Bool-cases (has_step s m.steps)) [
  | inl e ↦ rw e refl
  | inr e ↦ rw e refl
]

module _ (a : Assessment) where
  -- The manifest is on disk and has the assessment.
  abbrev pub IsDecided : Stores → Type 0
  IsDecided w = (m : Manifest) × (w.manifest ≡ some m) × (m.assessment ≡ some a)

  abbrev Holds : Manifest → Stores → Type 0
  Holds m w = IsDecided w × (m.assessment ≡ some a)

  -- A write that leaves the manifest alone.
  write-Decided :
      (g : Stores → Stores)
      → ((w : Stores) → (g w).manifest ≡ w.manifest)
      → Does IsDecided IsDecided (durable g) (λ u w. IsDecided w)
  write-Decided g same =
      Does-durable g (λ w h. h) (λ w h. let (m, on_disk, has) = h in (m, same w ∙ on_disk, has))

  checkpoint-Decided :
      (m : Manifest) (s : Step)
      → m.assessment ≡ some a
      → Does IsDecided IsDecided (checkpoint m s) Holds
  unfolding checkpoint
  checkpoint-Decided m s e =
      let there = with_step-assessment s m ∙ e in
      Does-bind {Mid = λ u w. IsDecided w} _ _
        (Does-durable _ (λ w h. h) (λ w h. (with_step s m, refl, there)))
        (λ u. Does-pure _ (λ w h. (h, there)))

  run_plugins-Decided :
      (today : ℕ) (job_id : String) (run : String → Stores → Stores) (ps : List Plugin)
      → ((name : String) (w : Stores) → (run name w).manifest ≡ w.manifest)
      → Does IsDecided IsDecided (run_plugins today job_id run ps) (λ u w. IsDecided w)
  unfolding run_plugins
  run_plugins-Decided today job_id run [] same = Does-pure tt (λ w h. h)
  run_plugins-Decided today job_id run (p ∷ ps) same =
      let more = run_plugins-Decided today job_id run ps same in
      Does-bind {Mid = λ u w. IsDecided w} _ _ (write-Decided (run p.name) (same p.name)) (λ u.
        elim (Option-cases p.outcome) [
          | inl o ↦ rw o more
          | inr (error, o) ↦ rw o (
              Does-bind {Mid = λ v w. IsDecided w} _ _ (write-Decided _ (λ w. refl))
                (λ v. Does-if p.critical _ _ (λ c. Does-raise p.name (λ w h. h)) (λ c. more)))
        ])

  module _ (ctx : JobContext) (receipt : String) (since : Option ℕ) (names : List String)
      (today : ℕ) (rules : String) (plugins : List Plugin) where
    place_pdf-Decided :
        (f : Folder) (m : Manifest)
        → m.assessment ≡ some a
        → Does IsDecided IsDecided (place_pdf today rules plugins f m) Holds
    unfolding place_pdf copy_pdf
    place_pdf-Decided f m e =
        Does-if (has_step pdf m.steps) _ _ (λ q. Does-pure m (λ w h. (h, e)))
          (λ q.
            Does-bind {Mid = λ u w. IsDecided w} _ _ (write-Decided _ (λ w. refl))
              (λ u. checkpoint-Decided m pdf e))

    logged-Decided :
        (m : Manifest)
        → m.assessment ≡ some a
        → Does IsDecided IsDecided
            (checkpoint m audit_started >>= λ m₀.
              durable (log (completed today ctx.job_id m.receipt_id ctx)) >> pure m₀)
            Holds
    logged-Decided m e = Does-bind {Mid = Holds} _ _ (checkpoint-Decided m audit_started e) (λ m₀.
        Does-given (λ e₀.
          Does-bind {Mid = λ u w. IsDecided w} _ _ (write-Decided _ (λ w. refl))
            (λ u. Does-pure m₀ (λ w h. (h, e₀)))))

    audit_completion-Decided :
        (m : Manifest)
        → m.assessment ≡ some a
        → Does IsDecided IsDecided (audit_completion today rules plugins ctx m) Holds
    unfolding audit_completion
    audit_completion-Decided m e =
        Does-bind {Mid = λ b w. IsDecided w} _ _ (Does-gets _ (λ w h. h)) (λ b.
          Does-bind {Mid = Holds}
            (if has_step audit m.steps || b
              then pure m
              else (checkpoint m audit_started >>= λ m₀.
                  durable (log (completed today ctx.job_id m.receipt_id ctx)) >> pure m₀))
            (λ m₁. checkpoint m₁ audit)
            (Does-if (has_step audit m.steps || b) _ _ (λ q. Does-pure m (λ w h. (h, e)))
              (λ q. logged-Decided m e))
            (λ m₁. Does-given (λ e₁. checkpoint-Decided m₁ audit e₁)))

    write_stores-Decided :
        (f : Folder) (m : Manifest)
        → m.assessment ≡ some a
        → Does IsDecided IsDecided (write_stores today rules plugins ctx f m) Holds
    unfolding write_stores
    write_stores-Decided f m e =
        Does-if (has_step stores m.steps) _ _ (λ q. Does-pure m (λ w h. (h, e)))
          (λ q. Does-bind {Mid = λ u w. IsDecided w} _ _ (write-Decided _ (λ w. refl)) (λ u.
            Does-bind {Mid = λ v w. IsDecided w} _ _ (write-Decided _ (λ w. refl))
              (λ v. checkpoint-Decided m stores e)))

    emit-Decided :
        (m : Manifest)
        → m.assessment ≡ some a
        → Does IsDecided IsDecided (emit today rules plugins ctx m) Holds
    unfolding emit
    emit-Decided m e =
        Does-if (has_step emit_started m.steps && not (has_step emitted m.steps)) _ _
          (λ q. Does-raise _ (λ w h. h))
          (λ q.
            Does-if (has_step emitted m.steps) _ _ (λ d. Does-pure m (λ w h. (h, e)))
              (λ d. Does-bind {Mid = Holds} _ _ (checkpoint-Decided m emit_started e) (λ m₀.
                Does-given (λ e₀.
                  Does-bind {Mid = λ u w. IsDecided w} _ _
                    (run_plugins-Decided today ctx.job_id (deliver today rules plugins) plugins
                      (λ name w. refl))
                    (λ u. checkpoint-Decided m₀ emitted e₀)))))

    release-Decided :
        (m : Manifest)
        → Does IsDecided IsDecided
            (from_release ctx receipt since names today rules plugins m)
            (λ f w. Unit)
    release-Decided m = Does-bind {Mid = λ u w. IsDecided w} _ _ (told (m.receipt_id) refl) (λ u.
        Does-bind {Mid = λ v w. IsDecided w} _ _ (write-Decided _ (λ w. refl)) (λ v.
          Does-bind {Mid = λ x w. Unit} _ _ (Does-durable _ (λ w h. h) (λ w h. tt))
            (λ x. Does-pure _ (λ w h. tt))))
      where
        told :
            (o : Option String)
            → m.receipt_id ≡ o
            → Does IsDecided IsDecided
                (finish_receipt today rules plugins
                  (disposition_name today rules plugins ctx.disposition)
                  m)
                (λ u w. IsDecided w)
        told none e =
            rw (finish_none ctx receipt since names today rules plugins m _ e)
              (Does-pure tt (λ w h. h))
        told (some r) e = rw (finish_some ctx receipt since names today rules plugins m _ r e) (
            Does-if (str_eq r "") _ _ (λ q. Does-pure tt (λ w h. h))
              (λ q. write-Decided _ (λ w. refl)))

    -- What follows the snapshot keeps the assessment in the manifest until the job is released.
    pub from_pdf-Decided :
        (m : Manifest)
        → m.assessment ≡ some a
        → Does IsDecided IsDecided
            (from_pdf ctx receipt since names today rules plugins m)
            (λ f w. Unit)
    from_pdf-Decided m e =
        Does-bind {Mid = Holds} _ (from_audit ctx receipt since names today rules plugins)
          (place_pdf-Decided (folder_of ctx.disposition) m e)
          (λ m₁. Does-given (λ e₁.
            Does-bind {Mid = Holds} _ (from_stores ctx receipt since names today rules plugins)
              (audit_completion-Decided m₁ e₁)
              (λ m₂. Does-given (λ e₂.
                Does-bind {Mid = Holds} _ (from_emit ctx receipt since names today rules plugins)
                  (write_stores-Decided (folder_of ctx.disposition) m₂ e₂)
                  (λ m₃. Does-given (λ e₃.
                    Does-bind {Mid = Holds} _
                      (from_release ctx receipt since names today rules plugins)
                      (emit-Decided m₃ e₃)
                      (λ m₄. Does-weaken (λ w h. h.0) (release-Decided m₄))))))))

pub loaded_decided :
    (a : Assessment) (w : Stores) → IsDecided a w → (load_manifest w).assessment ≡ some a
unfolding load_manifest
loaded_decided a w (m, on_disk, has) = rw on_disk has

-- A commit that finds the assessment in the manifest keeps it there until the job is released.
pub commit_steps-IsDecided :
    (a : Assessment) (ctx : JobContext) (receipt : String) (since : Option ℕ) (names : List String)
    (today : ℕ) (rules : String) (plugins : List Plugin)
    → Does (IsDecided a) (IsDecided a) (commit_steps today rules plugins ctx) (λ f w. Unit)
unfolding commit_steps
commit_steps-IsDecided a ctx receipt since names today rules plugins =
    Does-bind {Mid = λ m w. IsDecided a w × (m.assessment ≡ some a)} _
      (λ m.
        snapshot_assessment rules ctx m >>= from_pdf ctx receipt since names today rules plugins)
      (Does-gets load_manifest (λ w h. (h, loaded_decided a w h)))
      (λ m. Does-given (λ e. rw (snapshot_there ctx receipt since names today rules plugins m a e) (
        Does-bind {Mid = λ m' w. IsDecided a w × (m'.assessment ≡ some a)} _
          (from_pdf ctx receipt since names today rules plugins) (Does-pure m (λ w h. (h, e)))
          (λ m'. Does-given (from_pdf-Decided a ctx receipt since names today rules plugins m')))))

snapshot_first :
    (ctx : JobContext) (rules : String) (before : Stores) (m : Manifest)
    → Does
        (λ w. (w ≡ before) ⊎ IsDecided (snapshot rules ctx) w)
        (λ w. w ≡ before)
        (checkpoint (record m { assessment = some (snapshot rules ctx) }) assessed)
        (λ m₁ w. IsDecided (snapshot rules ctx) w × (m₁.assessment ≡ some (snapshot rules ctx)))
unfolding checkpoint
snapshot_first ctx rules before m =
    let m₀ = record m { assessment = some (snapshot rules ctx) } in
    let there = with_step-assessment assessed m₀ in
    Does-bind {Mid = λ u w. IsDecided (snapshot rules ctx) w} _ _
      (Does-durable _ (λ w h. inl h) (λ w h. (with_step assessed m₀, refl, there)))
      (λ u. Does-pure _ (λ w h. (h, there)))

-- A commit that finds none puts its own there before anything else.
pub commit_steps-undecided :
    (ctx : JobContext) (receipt : String) (since : Option ℕ) (names : List String) (today : ℕ)
    (rules : String) (plugins : List Plugin) (before : Stores) (m : Manifest)
    → before.manifest ≡ some m
    → m.assessment ≡ none
    → Does
        (λ w. (w ≡ before) ⊎ IsDecided (snapshot rules ctx) w)
        (λ w. w ≡ before)
        (commit_steps today rules plugins ctx)
        (λ f w. Unit)
unfolding commit_steps load_manifest
commit_steps-undecided ctx receipt since names today rules plugins before m on_disk fresh =
    Does-bind {Mid = λ m' w. (w ≡ before) × (m' ≡ m)} _
      (λ m'.
        snapshot_assessment rules ctx m' >>= from_pdf ctx receipt since names today rules plugins)
      (Does-gets load_manifest (λ w h. (h, loaded_before w h)))
      (λ m'. Does-given (λ same.
        subst
          (λ x.
            Does (λ y. (y ≡ before) ⊎ IsDecided (snapshot rules ctx) y) (λ w. w ≡ before)
              (snapshot_assessment rules ctx x
                >>= from_pdf ctx receipt since names today rules plugins)
              (λ f w. Unit))
          (sym same)
          (rw (snapshot_missing ctx receipt since names today rules plugins m fresh) (
            Does-bind
              {Mid = λ m₁ w.
                IsDecided (snapshot rules ctx) w × (m₁.assessment ≡ some (snapshot rules ctx))}
              _ (from_pdf ctx receipt since names today rules plugins)
              (snapshot_first ctx rules before m)
              (λ m₁. Does-given (λ e.
                Does-map (λ w h. inr h) (λ f w h. h)
                  (from_pdf-Decided (snapshot rules ctx) ctx receipt since names today rules plugins
                    m₁ e)))))))
  where
    loaded_before : (w : Stores) → w ≡ before → load_manifest w ≡ m
    loaded_before w e = rw (e, on_disk) refl
