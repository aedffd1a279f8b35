-- ===== src/Pipeline/Commit/Underway.antt =====
-- What holds of a job that is being committed (dlpduck/pipeline.py, `commit`).
use mathlib.Core.Path.{subst}
use dlpduck.Prelude.{
  ℕ, ◌≤◌, String, ◌≡◌, refl, sym, ◌∙◌, ◌⊎◌, inl, inr, true, false, Option, some, List, [], ◌++◌,
  arith, Bool-cases,
}
use dlpduck.Run.Does.{Does, Does-pure, Does-durable, Does-bind}
use dlpduck.Pipeline.State.{
  JobContext, Step, assessed, pdf, audit_started, audit, stores, emit_started, emitted, has_step,
  Manifest, Folder, archive_folder, quarantine_folder, Stores, folder_eq, holds_pdf,
}
use dlpduck.Pipeline.Commit.{with_step, checkpoint, is_completion, folder_of, copy_pdf, index_row}
use dlpduck.Pipeline.Commit.Steps.{
  count_if, step_eq-same, has_step-with_step, without_step, with_step-kept, with_step-has,
  with_step-named,
}

pub folder_eq_refl : (f : Folder) → folder_eq f f ≡ true
folder_eq_refl archive_folder = refl
folder_eq_refl quarantine_folder = refl

abbrev pub IsPrefix : List String → List String → Type 0
IsPrefix xs zs = (ys : List String) × (xs ++ ys ≡ zs)

-- The name of the folder for the job, its receipt, and the plugins that deliver it.
module _ (ctx : JobContext) (receipt : String) (since : Option ℕ) (names : List String) where
  abbrev pub completions : Stores → ℕ
  completions w = count_if (is_completion ctx.job_id (some receipt) since) w.trail

  abbrev pub IsStored : Stores → Type 0
  IsStored w =
      ((rules : String) × (w.index ≡ some (index_row rules ctx (folder_of ctx.disposition))))
      × (w.content ≡ ctx.text)

  -- What holds while the job is staged, at every moment of every commit of it.
  pub record IsUnderway (m : Manifest) (w : Stores) : Type 0 where
    pub on_disk : w.manifest ≡ some m
    pub present : w.staged ≡ true
    pub named : (m.receipt_id ≡ some receipt) × (m.received_at ≡ since)
    pub none_yet : has_step audit_started m.steps ≡ false → completions w ≡ 0
    pub at_most : completions w ≤ 1
    pub once : has_step audit m.steps ≡ true → completions w ≡ 1
    pub kept : has_step pdf m.steps ≡ true → holds_pdf (folder_of ctx.disposition) w ≡ true
    pub stored : has_step stores m.steps ≡ true → IsStored w
    pub quiet : has_step emit_started m.steps ≡ false → w.delivered ≡ []
    pub so_far : IsPrefix w.delivered names
    pub all_told : has_step emitted m.steps ≡ true → w.delivered ≡ names

  abbrev pub Underway : Stores → Type 0
  Underway w = (m : Manifest) × IsUnderway m w

  -- What must hold before a step is recorded.
  abbrev pub Due : Step → Stores → Type 0
  Due assessed w = Unit
  Due pdf w = holds_pdf (folder_of ctx.disposition) w ≡ true
  Due audit_started w = Unit
  Due audit w = completions w ≡ 1
  Due stores w = IsStored w
  Due emit_started w = Unit
  Due emitted w = w.delivered ≡ names

  pub recorded_or_pending :
      (m : Manifest) (s t : Step) (w : Stores)
      → Due s w
      → has_step t (with_step s m).steps ≡ true
      → (has_step t m.steps ≡ true) ⊎ Due t w
  recorded_or_pending m s t w d h = elim (Bool-cases (has_step t m.steps)) [
    | inl e ↦ inl e
    | inr e ↦
        let same : t ≡ s = step_eq-same t s (ground (arith, has_step-with_step t s m)) in
        inr (subst (λ u. Due u w) (sym same) d)
  ]

  -- Recording a step that is due.
  pub advance :
      (m : Manifest) (s : Step) (w : Stores)
      → IsUnderway m w
      → Due s w
      → IsUnderway (with_step s m) (record w { manifest = some (with_step s m) })
  unfolding holds_pdf
  advance m s w i d = record {
    on_disk = refl;
    present = i.present;
    named = let (a, b) = with_step-named s m in (a ∙ i.named.0, b ∙ i.named.1);
    none_yet = λ h. i.none_yet (without_step audit_started s m h);
    at_most = i.at_most;
    once = λ h. elim (recorded_or_pending m s audit w d h) [ inl e ↦ i.once e | inr e ↦ e ];
    kept = λ h. elim (recorded_or_pending m s pdf w d h) [ inl e ↦ i.kept e | inr e ↦ e ];
    stored = λ h. elim (recorded_or_pending m s stores w d h) [ inl e ↦ i.stored e | inr e ↦ e ];
    quiet = λ h. i.quiet (without_step emit_started s m h);
    so_far = i.so_far;
    all_told =
        λ h. elim (recorded_or_pending m s emitted w d h) [ inl e ↦ i.all_told e | inr e ↦ e ];
  }

  -- A phase ends with its step recorded, and no step is taken back.
  pub record Grown (s : Step) (m m' : Manifest) (w : Stores) : Type 0 where
    pub underway : IsUnderway m' w
    pub has : has_step s m'.steps ≡ true
    pub keeps : (t : Step) → has_step t m.steps ≡ true → has_step t m'.steps ≡ true

  pub checkpoint-Does :
      (m m₀ : Manifest) (s : Step) (Pre : Stores → Type 0)
      → ((t : Step) → has_step t m.steps ≡ true → has_step t m₀.steps ≡ true)
      → ((w : Stores) → Pre w → IsUnderway m₀ w × Due s w)
      → Does Underway Pre (checkpoint m₀ s) (λ m' w. Grown s m m' w)
  unfolding checkpoint
  checkpoint-Does m m₀ s Pre g f =
      Does-bind {Mid = λ u w. IsUnderway (with_step s m₀) w} _ _
        (Does-durable _ (λ w h. (m₀, (f w h).0)) (λ w h. advance m₀ s w (f w h).0 (f w h).1))
        (λ u. Does-pure _ (λ w h. record {
          underway = h;
          has = with_step-has s m₀;
          keeps = λ t k. with_step-kept t s m₀ (g t k);
        }))

  pub copied :
      (m : Manifest) (w : Stores)
      → IsUnderway m w
      → IsUnderway m (copy_pdf (folder_of ctx.disposition) w)
        × (holds_pdf (folder_of ctx.disposition) (copy_pdf (folder_of ctx.disposition) w) ≡ true)
  unfolding copy_pdf holds_pdf
  copied m w i =
      let there : holds_pdf (folder_of ctx.disposition) (copy_pdf (folder_of ctx.disposition) w)
          ≡ true =
        ground (arith, folder_eq_refl (folder_of ctx.disposition)) in
      (
        record {
          on_disk = i.on_disk;
          present = i.present;
          named = i.named;
          none_yet = i.none_yet;
          at_most = i.at_most;
          once = i.once;
          kept = λ h. there;
          stored = i.stored;
          quiet = i.quiet;
          so_far = i.so_far;
          all_told = i.all_told;
        },
        there,
      )
