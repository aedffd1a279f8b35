-- ===== src/Pipeline/Commit/Emit.antt =====
-- Delivery to the plugins (dlpduck/pipeline.py, `commit`; dlpduck/plugins/base.py, `run`).
use mathlib.Core.List.{append_assoc, append-nil}
use dlpduck.Prelude.{
  ℕ, String, ◌≡◌, refl, sym, ◌∙◌, inl, inr, true, false, not, ◌&&◌, Option, List, [], ◌∷◌, ◌++◌,
  map, arith, Option-cases,
}
use dlpduck.Run.Does.{
  Does, Does-pure, Does-raise, Does-if, Does-durable, Does-bind, Does-weaken, Does-given,
}
use dlpduck.Pipeline.State.{
  JobContext, emit_started, emitted, step_eq, has_step, Manifest, plugin_failed, Stores, holds_pdf,
}
use dlpduck.Pipeline.Process.{Plugin, log, run_plugins}
use dlpduck.Pipeline.Commit.{with_step, checkpoint, is_completion, deliver, emit}
use dlpduck.Pipeline.Commit.Steps.{count_if-snoc, has_step-with_step, with_step-kept, with_step-has}
use dlpduck.Pipeline.Commit.Underway.{completions, IsUnderway, Underway, Grown, checkpoint-Does}
use dlpduck.Pipeline.Commit.Writes.{marked}

module _ (ctx : JobContext) (receipt : String) (since : Option ℕ) (names : List String) where
  module _ (today : ℕ) (rules : String) (plugins : List Plugin) where
    pub told :
        (m : Manifest) (p : Plugin) (sofar : List String) (ps : List Plugin)
        → has_step emit_started m.steps ≡ true
        → has_step emitted m.steps ≡ false
        → sofar ++ map (λ (q : Plugin). q.name) (p ∷ ps) ≡ names
        → (w : Stores) → IsUnderway ctx receipt since names m w × (w.delivered ≡ sofar)
        → IsUnderway ctx receipt since names m (deliver today rules plugins p.name w)
          × (w.delivered ++ p.name ∷ [] ≡ sofar ++ p.name ∷ [])
    unfolding holds_pdf
    told m p sofar ps s e q w (i, h) =
        let same : w.delivered ++ p.name ∷ [] ≡ sofar ++ p.name ∷ [] = rw h refl in
        (
          record {
            on_disk = i.on_disk;
            present = i.present;
            named = i.named;
            none_yet = i.none_yet;
            at_most = i.at_most;
            once = i.once;
            kept = i.kept;
            stored = i.stored;
            quiet = λ n. cc (n, s);
            so_far = (map (λ (r : Plugin). r.name) ps, rw (same, append_assoc) q);
            all_told = λ n. cc (n, e);
          },
          same,
        )

    pub failure_logged :
        (m : Manifest) (name error : String) (sofar : List String) (w : Stores)
        → IsUnderway ctx receipt since names m w × (w.delivered ≡ sofar)
        → IsUnderway ctx receipt since names m (log (plugin_failed today ctx.job_id name error) w)
          × (w.delivered ≡ sofar)
    unfolding is_completion holds_pdf
    failure_logged m name error sofar w (i, h) =
        let same : completions ctx receipt since names
              (log (plugin_failed today ctx.job_id name error) w)
            ≡ completions ctx receipt since names w =
          rw count_if-snoc (ground arith) in
        (
          record {
            on_disk = i.on_disk;
            present = i.present;
            named = i.named;
            none_yet = λ e. same ∙ i.none_yet e;
            at_most = rw same i.at_most;
            once = λ e. same ∙ i.once e;
            kept = i.kept;
            stored = i.stored;
            quiet = i.quiet;
            so_far = i.so_far;
            all_told = i.all_told;
          },
          h,
        )

    pub run_plugins-Does :
        (m : Manifest) (sofar : List String) (ps : List Plugin)
        → has_step emit_started m.steps ≡ true
        → has_step emitted m.steps ≡ false
        → sofar ++ map (λ (q : Plugin). q.name) ps ≡ names
        → Does
            (Underway ctx receipt since names)
            (λ w. IsUnderway ctx receipt since names m w × (w.delivered ≡ sofar))
            (run_plugins today ctx.job_id (deliver today rules plugins) ps)
            (λ u w. IsUnderway ctx receipt since names m w × (w.delivered ≡ names))
    unfolding run_plugins
    run_plugins-Does m sofar [] s e q =
        Does-pure tt (λ w h. (h.0, h.1 ∙ sym (append-nil sofar) ∙ q))
    run_plugins-Does m sofar (p ∷ ps) s e q =
        let more =
          run_plugins-Does m (sofar ++ p.name ∷ []) ps s e
            (append_assoc sofar (p.name ∷ []) _ ∙ q) in
        Does-bind
          {Mid = λ u w.
            IsUnderway ctx receipt since names m w × (w.delivered ≡ sofar ++ p.name ∷ [])}
          _ _ (Does-durable _ (λ w h. (m, h.0)) (told m p sofar ps s e q))
          (λ u. elim (Option-cases p.outcome) [
            | inl o ↦ rw o more
            | inr (error, o) ↦ rw o (
                Does-bind
                  {Mid = λ u w.
                    IsUnderway ctx receipt since names m w × (w.delivered ≡ sofar ++ p.name ∷ [])}
                  _ _
                  (Does-durable _ (λ w h. (m, h.0))
                    (failure_logged m p.name error (sofar ++ p.name ∷ [])))
                  (λ u. Does-if p.critical _ _ (λ c. Does-raise _ (λ w h. (m, h.0))) (λ c. more)))
          ])

    pub not_emitted :
        (m : Manifest)
        → has_step emitted m.steps ≡ false
        → has_step emitted (with_step emit_started m).steps ≡ false
    unfolding step_eq
    not_emitted m d = ground (arith, has_step-with_step emitted emit_started m)

    pub emit-Does :
        (m : Manifest)
        → map (λ (p : Plugin). p.name) plugins ≡ names
        → Does
            (Underway ctx receipt since names)
            (IsUnderway ctx receipt since names m)
            (emit today rules plugins ctx m)
            (λ m' w. Grown ctx receipt since names emitted m m' w)
    unfolding emit
    emit-Does m p =
        Does-if (has_step emit_started m.steps && not (has_step emitted m.steps)) _ _
          (λ e. Does-raise _ (λ w h. (m, h)))
          (λ e.
            Does-if (has_step emitted m.steps) _ _
              (λ d. Does-pure m (λ w h. record { underway = h; has = d; keeps = λ t k. k }))
              (λ d.
                Does-bind (checkpoint m emit_started) _
                  (Does-weaken (λ w h. (h, h.quiet (ground arith)))
                    (marked ctx receipt since names today rules plugins m emit_started
                      (λ w. w.delivered ≡ []) (λ w i z. tt) (λ w z. z)))
                  (λ m₀. Does-given (λ same.
                    Does-bind
                      {Mid = λ u w. IsUnderway ctx receipt since names m₀ w × (w.delivered ≡ names)}
                      _ _
                      (run_plugins-Does m₀ [] plugins (rw same (with_step-has emit_started m))
                        (rw same (not_emitted m d)) p)
                      (λ u.
                        checkpoint-Does ctx receipt since names m m₀ emitted _
                          (λ t k. rw same (with_step-kept t emit_started m k)) (λ w h. h))))))
