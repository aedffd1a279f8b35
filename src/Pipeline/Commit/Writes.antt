-- ===== src/Pipeline/Commit/Writes.antt =====
-- Placing the PDF, the event of the completion and the stores (dlpduck/pipeline.py, `commit`).
use text.Mathlib.TextPositions.{eq_refl}
use dlpduck.Prelude.{
  ℕ, ◌≤◌, String, ◌≡◌, refl, sym, ap, ◌∙◌, inl, inr, Bool, true, false, not, ◌&&◌, ◌||◌, Option,
  some, List, arith, str_eq, leb, if◌then◌else◌, Bool-cases, any_of,
}
use dlpduck.Run.{pure, durable, ◌>>=◌, ◌>>◌}
use dlpduck.Run.Does.{
  Does, Does-pure, Does-gets, Does-if, Does-durable, Does-bind, Does-weaken, Does-given,
}
use dlpduck.Pipeline.State.{
  JobContext, Step, pdf, audit_started, audit, stores, has_step, Manifest, completed, Stores,
  holds_pdf,
}
use dlpduck.Pipeline.Process.{Plugin, log}
use dlpduck.Pipeline.Commit.{
  manifest_version, with_step, checkpoint, not_before, is_completion, completion_already_audited,
  folder_of, index_row, ruleset_of, place_pdf, audit_completion, write_stores,
}
use dlpduck.Pipeline.Commit.Steps.{
  count_if-snoc, count_if-none, count_if-some, with_step-kept, with_step-has, with_step-named,
}
use dlpduck.Pipeline.Commit.Underway.{
  completions, IsStored, IsUnderway, Underway, Due, advance, Grown, checkpoint-Does, copied,
}

module _ (ctx : JobContext) (receipt : String) (since : Option ℕ) (names : List String) where
  module _ (today : ℕ) (rules : String) (plugins : List Plugin) where
    pub place_pdf-Does :
        (m : Manifest)
        → Does
            (Underway ctx receipt since names)
            (IsUnderway ctx receipt since names m)
            (place_pdf today rules plugins (folder_of ctx.disposition) m)
            (λ m' w. Grown ctx receipt since names pdf m m' w)
    unfolding place_pdf
    place_pdf-Does m =
        Does-if (has_step pdf m.steps) _ _
          (λ e. Does-pure m (λ w h. record { underway = h; has = e; keeps = λ t k. k }))
          (λ e.
            Does-bind
              {Mid = λ u w.
                IsUnderway ctx receipt since names m w
                × (holds_pdf (folder_of ctx.disposition) w ≡ true)}
              _ _ (Does-durable _ (λ w h. (m, h)) (copied ctx receipt since names m))
              (λ u. checkpoint-Does ctx receipt since names m m pdf _ (λ t k. k) (λ w h. h)))

    pub already-named :
        (m : Manifest) (w : Stores)
        → IsUnderway ctx receipt since names m w
        → completion_already_audited ctx m w ≡ (
            if str_eq receipt ""
            then false
            else if leb manifest_version m.version && not (has_step audit_started m.steps)
            then false
            else any_of (is_completion ctx.job_id (some receipt) since) w.trail)
    unfolding completion_already_audited
    already-named m w i = rw (i.named.0, i.named.1) (ground arith)

    pub audited :
        (m : Manifest) (w : Stores)
        → IsUnderway ctx receipt since names m w
        → has_step audit m.steps || completion_already_audited ctx m w ≡ true
        → completions ctx receipt since names w ≡ 1
    audited m w i h =
        let most : completions ctx receipt since names w ≤ 1 = i.at_most in
        elim (Bool-cases (has_step audit m.steps)) [
          | inl e ↦ i.once e
          | inr e ↦ ground (
            arith,
            already-named m w i,
            count_if-some (is_completion ctx.job_id (some receipt) since) w.trail,
          )
        ]

    pub unaudited :
        (m : Manifest) (w : Stores)
        → str_eq receipt "" ≡ false
        → IsUnderway ctx receipt since names m w
        → has_step audit m.steps || completion_already_audited ctx m w ≡ false
        → completions ctx receipt since names w ≡ 0
    unaudited m w r i h = elim (Bool-cases (has_step audit_started m.steps)) [
      | inr e ↦ i.none_yet e
      | inl e ↦
          count_if-none (is_completion ctx.job_id (some receipt) since) w.trail
            (ground (arith, already-named m w i))
    ]

    pub logged :
        (m : Manifest) (id : Option String) (w : Stores)
        → id ≡ some receipt
        → not_before since today ≡ true
        → has_step audit_started m.steps ≡ true
        → IsUnderway ctx receipt since names m w
        → completions ctx receipt since names w ≡ 0
        → IsUnderway ctx receipt since names m (log (completed today ctx.job_id id ctx) w)
          × (completions ctx receipt since names (log (completed today ctx.job_id id ctx) w) ≡ 1)
    unfolding is_completion holds_pdf
    logged m id w q t s i h =
        let one : completions ctx receipt since names (log (completed today ctx.job_id id ctx) w)
            ≡ 1 =
          rw (count_if-snoc, h, q, t, eq_refl ctx.job_id, eq_refl receipt) refl in
        (
          record {
            on_disk = i.on_disk;
            present = i.present;
            named = i.named;
            none_yet = λ e. cc (e, s);
            at_most = rw one (ground arith);
            once = λ e. one;
            kept = i.kept;
            stored = i.stored;
            quiet = i.quiet;
            so_far = i.so_far;
            all_told = i.all_told;
          },
          one,
        )

    -- A checkpoint that leaves the number of (completions ctx receipt since names), and what is
    -- delivered, as they are.
    pub marked :
        (m : Manifest) (s : Step) (F : Stores → Type 0)
        → ((w : Stores)
            → IsUnderway ctx receipt since names m w
            → F w
            → Due ctx receipt since names s w)
        → ((w : Stores) → F w → F (record w { manifest = some (with_step s m) }))
        → Does
            (Underway ctx receipt since names)
            (λ w. IsUnderway ctx receipt since names m w × F w)
            (checkpoint m s)
            (λ m' w. (IsUnderway ctx receipt since names m' w × F w) × (m' ≡ with_step s m))
    unfolding checkpoint
    marked m s F d f =
        Does-bind {Mid = λ u w. IsUnderway ctx receipt since names (with_step s m) w × F w} _ _
          (Does-durable _ (λ w h. (m, h.0))
            (λ w h. (advance ctx receipt since names m s w h.0 (d w h.0 h.1), f w h.1)))
          (λ u. Does-pure _ (λ w h. (h, refl)))

    pub started_and_logged :
        (m : Manifest) (b : Bool)
        → str_eq receipt "" ≡ false
        → not_before since today ≡ true
        → has_step audit m.steps || b ≡ false
        → Does
            (Underway ctx receipt since names)
            (λ w. IsUnderway ctx receipt since names m w × (b ≡ completion_already_audited ctx m w))
            (checkpoint m audit_started >>= λ m₀.
              durable (log (completed today ctx.job_id m.receipt_id ctx)) >> pure m₀)
            (λ m₁ w.
              (IsUnderway ctx receipt since names m₁ w
                × (completions ctx receipt since names w ≡ 1))
              × ((s : Step) → has_step s m.steps ≡ true → has_step s m₁.steps ≡ true))
    started_and_logged m b r t e =
        Does-bind (checkpoint m audit_started) _
          (Does-weaken (λ w h. (h.0, unaudited m w r h.0 (rw (← h.1) e)))
            (marked m audit_started (λ w. completions ctx receipt since names w ≡ 0) (λ w i z. tt)
              (λ w z. z)))
          (λ m₀. Does-given (λ same.
            Does-bind
              {Mid = λ u w.
                IsUnderway ctx receipt since names m₀ w
                × (completions ctx receipt since names w ≡ 1)}
              _ _
              (Does-durable _ (λ w h. (m₀, h.0))
                (λ w h.
                  logged m₀ m.receipt_id w
                    (sym (with_step-named audit_started m).0
                      ∙ ap (λ (x : Manifest). x.receipt_id) (sym same)
                      ∙ h.0.named.0)
                    t (rw same (with_step-has audit_started m)) h.0 h.1))
              (λ u.
                Does-pure m₀ (λ w h. (h, λ s k. rw same (with_step-kept s audit_started m k))))))

    pub indexed :
        (m : Manifest)
        → has_step stores m.steps ≡ false
        → (w : Stores) → IsUnderway ctx receipt since names m w
        → IsUnderway ctx receipt since names m
            (record w { index = some (index_row (ruleset_of m) ctx (folder_of ctx.disposition)) })
    unfolding holds_pdf
    indexed m e w i = record {
      on_disk = i.on_disk;
      present = i.present;
      named = i.named;
      none_yet = i.none_yet;
      at_most = i.at_most;
      once = i.once;
      kept = i.kept;
      stored = λ h. cc (h, e);
      quiet = i.quiet;
      so_far = i.so_far;
      all_told = i.all_told;
    }

    pub contained :
        (m : Manifest)
        → has_step stores m.steps ≡ false
        → (w : Stores) → IsUnderway ctx receipt since names m w
        → IsUnderway ctx receipt since names m (record w { content = ctx.text })
    unfolding holds_pdf
    contained m e w i = record {
      on_disk = i.on_disk;
      present = i.present;
      named = i.named;
      none_yet = i.none_yet;
      at_most = i.at_most;
      once = i.once;
      kept = i.kept;
      stored = λ h. cc (h, e);
      quiet = i.quiet;
      so_far = i.so_far;
      all_told = i.all_told;
    }

    pub audit_completion-Does :
        (m : Manifest)
        → str_eq receipt "" ≡ false
        → not_before since today ≡ true
        → Does
            (Underway ctx receipt since names)
            (IsUnderway ctx receipt since names m)
            (audit_completion today rules plugins ctx m)
            (λ m' w. Grown ctx receipt since names audit m m' w)
    unfolding audit_completion
    audit_completion-Does m r t =
        Does-bind
          {Mid = λ b w.
            IsUnderway ctx receipt since names m w × (b ≡ completion_already_audited ctx m w)}
          _ _ (Does-gets _ (λ w h. (h, refl)))
          (λ b.
            Does-bind
              {Mid = λ m₁ w.
                (IsUnderway ctx receipt since names m₁ w
                  × (completions ctx receipt since names w ≡ 1))
                × ((s : Step) → has_step s m.steps ≡ true → has_step s m₁.steps ≡ true)}
              _ _
              (Does-if (has_step audit m.steps || b) _ _
                (λ e. Does-pure m (λ w h. ((h.0, audited m w h.0 (rw (← h.1) e)), λ s k. k)))
                (λ e. started_and_logged m b r t e))
              (λ m₁. record {
                at = λ n w h.
                    (checkpoint-Does ctx receipt since names m m₁ audit _ h.1 (λ w' k. k)).at n w
                      h.0;
              }))

    pub write_stores-Does :
        (m : Manifest)
        → Does
            (Underway ctx receipt since names)
            (IsUnderway ctx receipt since names m)
            (write_stores today rules plugins ctx (folder_of ctx.disposition) m)
            (λ m' w. Grown ctx receipt since names stores m m' w)
    unfolding write_stores
    write_stores-Does m =
        Does-if (has_step stores m.steps) _ _
          (λ e. Does-pure m (λ w h. record { underway = h; has = e; keeps = λ t k. k }))
          (λ e.
            Does-bind
              {Mid = λ u w.
                IsUnderway ctx receipt since names m w
                × ((rs : String) × (w.index ≡ some (index_row rs ctx (folder_of ctx.disposition))))}
              _ _ (Does-durable _ (λ w h. (m, h)) (λ w h. (indexed m e w h, (ruleset_of m, refl))))
              (λ u.
                Does-bind
                  {Mid = λ u w.
                    IsUnderway ctx receipt since names m w × IsStored ctx receipt since names w}
                  _ _ (Does-durable _ (λ w h. (m, h.0)) (λ w h. (contained m e w h.0, (h.1, refl))))
                  (λ u.
                    checkpoint-Does ctx receipt since names m m stores _ (λ t k. k) (λ w h. h))))
