-- ===== src/Pipeline/Commit/Ends.antt =====
-- How many writes a commit needs, and with what it may raise (dlpduck/pipeline.py, `commit`).
use text.Mathlib.TextPositions.{eq_refl}
use dlpduck.Prelude.{
  ℕ, ◌+◌, ◌*◌, ◌≤◌, String, ◌≡◌, refl, ◌⊎◌, inl, inr, Bool, true, false, not, ◌&&◌, ◌||◌, none,
  some, List, [], ◌∷◌, arith, str_eq, Option-cases, length, any_of,
}
use dlpduck.Document.{DocumentText}
use dlpduck.Run.{◌>>=◌}
use dlpduck.Run.Costs.{
  Uncut, Costs, Costs-pure, Costs-raise, Costs-gets, Costs-weaken, Costs-if, Costs-durable,
  Costs-bind,
}
use dlpduck.Pipeline.State.{
  JobContext, Step, assessed, pdf, audit_started, audit, stores, emit_started, emitted, has_step,
  Manifest, Folder, completed, Stores, load_manifest,
}
use dlpduck.Pipeline.Process.{Plugin, log, run_plugins}
use dlpduck.Pipeline.Commit.Retried.{commit_has_text}
use dlpduck.Pipeline.Commit.Once.{from_release, from_emit, from_stores, from_audit, from_pdf}
use dlpduck.Pipeline.Commit.{
  checkpoint, snapshot, snapshot_assessment, folder_of, remove_staging, place_pdf, audit_completion,
  write_stores, deliver, emit, finish_receipt, commit_steps, commit,
}

abbrev pub uncertain : String
uncertain = "emit outcome uncertain; inspect staged job before retrying delivery"

-- The failure of a critical plugin, by its name.
abbrev pub is_blamed : String → Plugin → Bool
is_blamed e p = p.critical && (elim p.outcome [ none ↦ false | some m ↦ true ] && str_eq p.name e)

abbrev pub Excused : List Plugin → String → Type 0
Excused plugins e = (e ≡ uncertain) ⊎ (any_of (is_blamed e) plugins ≡ true)

module _ (today : ℕ) (rules : String) (plugins : List Plugin) (Blame : String → Type 0) where
  checkpoint-Costs : (m : Manifest) (s : Step) → Costs Blame 1 (checkpoint m s)
  unfolding checkpoint
  checkpoint-Costs m s = Costs-bind _ _ (Costs-durable _) (λ u. Costs-pure _)

  snapshot_assessment-Costs :
      (ctx : JobContext) (m : Manifest) → Costs Blame 1 (snapshot_assessment rules ctx m)
  unfolding snapshot_assessment
  snapshot_assessment-Costs ctx m = elim (Option-cases m.assessment) [
    | inl e ↦ rw e (checkpoint-Costs (record m { assessment = some (snapshot rules ctx) }) assessed)
    | inr (a, e) ↦ rw e (Costs-weaken (ground arith) (Costs-pure _))
  ]

  place_pdf-Costs : (f : Folder) (m : Manifest) → Costs Blame 2 (place_pdf today rules plugins f m)
  unfolding place_pdf
  place_pdf-Costs f m =
      Costs-if (has_step pdf m.steps) _ _ (λ e. Costs-weaken (ground arith) (Costs-pure m))
        (λ e. Costs-bind _ _ (Costs-durable _) (λ u. checkpoint-Costs m pdf))

  audit_completion-Costs :
      (ctx : JobContext) (m : Manifest) → Costs Blame 3 (audit_completion today rules plugins ctx m)
  unfolding audit_completion
  audit_completion-Costs ctx m = Costs-bind {k₁ = 0} {k₂ = 3} _ _ (Costs-gets _) (λ b.
      Costs-bind {k₁ = 2} {k₂ = 1} _ _
        (Costs-if (has_step audit m.steps || b) _ _
          (λ e. Costs-weaken (ground arith) (Costs-pure m))
          (λ e. Costs-bind {k₁ = 1} {k₂ = 1} _ _ (checkpoint-Costs m audit_started) (λ m₀.
            Costs-bind {k₁ = 1} {k₂ = 0} _ _
              (Costs-durable (log (completed today ctx.job_id m.receipt_id ctx)))
              (λ u. Costs-pure m₀))))
        (λ m₁. checkpoint-Costs m₁ audit))

  write_stores-Costs :
      (ctx : JobContext) (f : Folder) (m : Manifest)
      → Costs Blame 3 (write_stores today rules plugins ctx f m)
  unfolding write_stores
  write_stores-Costs ctx f m =
      Costs-if (has_step stores m.steps) _ _ (λ e. Costs-weaken (ground arith) (Costs-pure m))
        (λ e. Costs-bind {k₁ = 1} {k₂ = 2} _ _ (Costs-durable _) (λ u.
          Costs-bind {k₁ = 1} {k₂ = 1} _ _ (Costs-durable _) (λ u. checkpoint-Costs m stores)))

  finish_receipt-Costs :
      (outcome : String) (m : Manifest)
      → Costs Blame 1 (finish_receipt today rules plugins outcome m)
  unfolding finish_receipt
  finish_receipt-Costs outcome m = elim (Option-cases m.receipt_id) [
    | inl e ↦ rw e (Costs-weaken (ground arith) (Costs-pure tt))
    | inr (r, e) ↦ rw e (
        Costs-if (str_eq r "") _ _ (λ q. Costs-weaken (ground arith) (Costs-pure tt))
          (λ q. Costs-durable _))
  ]

run_plugins-Costs :
    (today : ℕ) (job_id : String) (run : String → Stores → Stores) (all ps : List Plugin)
    → ((e : String) → any_of (is_blamed e) ps ≡ true → any_of (is_blamed e) all ≡ true)
    → Costs (Excused all) (2 * length ps) (run_plugins today job_id run ps)
unfolding run_plugins
run_plugins-Costs today job_id run all [] f = Costs-pure tt
run_plugins-Costs today job_id run all (p ∷ ps) f =
    let more = run_plugins-Costs today job_id run all ps (λ e h. f e (ground arith)) in
    Costs-weaken {k = 1 + (1 + 2 * length ps)} (omega arith) (
      Costs-bind {k₁ = 1} {k₂ = 1 + 2 * length ps} _ _ (Costs-durable _) (λ u.
        elim (Option-cases p.outcome) [
          | inl o ↦ rw o (Costs-weaken (omega arith) more)
          | inr (error, o) ↦ rw o (
              Costs-bind {k₁ = 1} {k₂ = 2 * length ps} _ _ (Costs-durable _) (λ v.
                Costs-if p.critical _ _
                  (λ c.
                    Costs-weaken (omega arith)
                      (Costs-raise p.name (inr (f p.name (rw (c, o, eq_refl p.name) refl)))))
                  (λ c. more)))
        ]))

module _ (today : ℕ) (rules : String) (plugins : List Plugin) where
  emit-Costs :
      (ctx : JobContext) (m : Manifest)
      → Costs (Excused plugins) (2 + 2 * length plugins) (emit today rules plugins ctx m)
  unfolding emit
  emit-Costs ctx m =
      Costs-if (has_step emit_started m.steps && not (has_step emitted m.steps)) _ _
        (λ e. Costs-weaken (omega arith) (Costs-raise uncertain (inl refl)))
        (λ e.
          Costs-if (has_step emitted m.steps) _ _ (λ q. Costs-weaken (omega arith) (Costs-pure m))
            (λ q. Costs-weaken {k = 1 + (2 * length plugins + 1)} (omega arith) (
              Costs-bind {k₁ = 1} {k₂ = 2 * length plugins + 1} _ _
                (checkpoint-Costs today rules plugins (Excused plugins) m emit_started)
                (λ m₀.
                  Costs-bind {k₁ = 2 * length plugins} {k₂ = 1} _ _
                    (run_plugins-Costs today ctx.job_id (deliver today rules plugins) plugins
                      plugins (λ e h. h))
                    (λ u. checkpoint-Costs today rules plugins (Excused plugins) m₀ emitted)))))

  commit_steps-Costs :
      (ctx : JobContext)
      → Costs (Excused plugins) (14 + 2 * length plugins) (commit_steps today rules plugins ctx)
  unfolding commit_steps
  commit_steps-Costs ctx =
      Costs-weaken {k = 0 + (1 + (2 + (3 + (3 + (2 + 2 * length plugins + (1 + (1 + (1 + 0))))))))}
        (omega arith)
        (Costs-bind {k₂ = 1 + (2 + (3 + (3 + (2 + 2 * length plugins + (1 + (1 + (1 + 0)))))))} _
          (λ m. snapshot_assessment rules ctx m >>= from_pdf ctx "" none [] today rules plugins)
          (Costs-gets load_manifest)
          (λ m.
            Costs-bind _ (from_pdf ctx "" none [] today rules plugins)
              (snapshot_assessment-Costs today rules plugins _ ctx m)
              (λ m₁.
                Costs-bind _ (from_audit ctx "" none [] today rules plugins)
                  (place_pdf-Costs today rules plugins _ (folder_of ctx.disposition) m₁)
                  (λ m₂.
                    Costs-bind _ (from_stores ctx "" none [] today rules plugins)
                      (audit_completion-Costs today rules plugins _ ctx m₂)
                      (λ m₃.
                        Costs-bind _ (from_emit ctx "" none [] today rules plugins)
                          (write_stores-Costs today rules plugins _ ctx (folder_of ctx.disposition)
                            m₃)
                          (λ m₄.
                            Costs-bind _ (from_release ctx "" none [] today rules plugins)
                              (emit-Costs ctx m₄)
                              (λ m₅.
                                Costs-bind _ _ (finish_receipt-Costs today rules plugins _ _ m₅)
                                  (λ u.
                                    Costs-bind _ _
                                      (Costs-durable (λ w. record w { failed_folder = none }))
                                      (λ u.
                                        Costs-bind _ _ (Costs-durable remove_staging)
                                          (λ u. Costs-pure (folder_of ctx.disposition)))))))))))

-- A commit of a job that has a text comes to an end: with fourteen writes and two for each plugin
-- it
-- is not cut, and then it returns, unless it raises because an earlier delivery is uncertain or
-- because a critical plugin failed, which it names.
pub commit_ends :
    (today : ℕ) (rules : String) (plugins : List Plugin) (ctx : JobContext) (text : DocumentText)
    (n : ℕ) (w : Stores)
    → ctx.text ≡ some text
    → 14 + 2 * length plugins ≤ n
    → Uncut (Excused plugins) 0 (commit today rules plugins ctx n w)
commit_ends today rules plugins ctx text n w x h =
    let ends = (commit_steps-Costs today rules plugins ctx).at n 0 w (omega arith) in
    rw (commit_has_text today rules plugins ctx text x) ends
