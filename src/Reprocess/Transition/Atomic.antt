-- ===== src/Reprocess/Transition/Atomic.antt =====
-- A transition that is cut anywhere and recovered (dlpduck/reprocess.py).
use mathlib.Core.Path.{subst}
use dlpduck.Prelude.{
  ℕ, ◌≡◌, refl, sym, ◌∙◌, ◌⊎◌, inl, inr, Bool, true, false, ◌&&◌, none, some, List, [], ◌∷◌, ◌++◌,
  ◌==◌, Option-cases, any_of,
}
use dlpduck.Document.{DocumentText}
use dlpduck.Run.{pure, durable}
use dlpduck.Run.Does.{
  Ended, Does, Does-pure, Does-gets, Does-if, Does-durable, Does-bind, Does-weaken,
}
use dlpduck.Reprocess.Rows.{Location}
use dlpduck.Reprocess.Write.{Transition, Archive}
use dlpduck.Reprocess.Transition.{
  same_event, copied_to, unlinked, moved, move_durably, moves, is_unwritten, write_row, move_pdf,
  refresh_content, index_transition, audit_transition, apply_transition,
}
use dlpduck.Reprocess.Transition.Pending.{
  IsNew, disk_after, disk_between, content_after, carried_out, IsPending, Recoverable, disk_done,
  disk_halfway, disk_todo, rows_done, rows_todo, trail_done, trail_todo, Begun,
}

module _ (t : Transition) (old : Archive) where
  module _ (recovering : Bool) (new : IsNew t old) where
    -- The parts that are done, step by step.
    abbrev AtDisk : Archive → Type 0
    AtDisk a = Begun t old recovering a × (a.disk ≡ disk_after t old)

    abbrev AtContent : Archive → Type 0
    AtContent a = AtDisk a × (a.content ≡ content_after t old)

    abbrev AtRows : Archive → Type 0
    AtRows a = AtContent a × (a.rows ≡ old.rows ++ t.row ∷ [])

    -- The PDF is in both places, and its removal from the first completes the move.
    AtBoth : Archive → Type 0
    AtBoth a = Begun t old recovering a × (unlinked t.prior_path a.disk ≡ disk_after t old)

    with_disk :
        (a : Archive) (disk : List Location)
        → Begun t old recovering a
        → (disk ≡ disk_between t old) ⊎ (disk ≡ disk_after t old)
        → Begun t old recovering (record a { disk = disk })
    with_disk a disk (p, r) e = (
      record { noted = p.noted; disk = inr e; content = p.content; rows = p.rows; trail = p.trail },
      r,
    )

    pending_copy :
        (a : Archive)
        → Begun t old recovering a
        → moves t.prior_path t.row.archive_path a.disk ≡ true
        → AtBoth (record a { disk = copied_to t.row.archive_path a.disk })
    unfolding AtBoth moved
    pending_copy a h m =
        (with_disk a _ h (inl (disk_halfway t old a h.0 m)), disk_todo t old a h.0 m)

    move_durably-Does :
        Does
          (Recoverable t old)
          (λ a. Begun t old recovering a × (moves t.prior_path t.row.archive_path a.disk ≡ true))
          (move_durably t.prior_path t.row.archive_path)
          (λ u a. AtDisk a)
    unfolding move_durably AtBoth
    move_durably-Does =
        Does-bind {Mid = λ u a. AtBoth a} _ _
          (Does-durable _ (λ a h. inr h.0.0) (λ a h. pending_copy a h.0 h.1))
          (λ u. Does-durable _ (λ a h. inr h.0.0) (λ a h. (with_disk a _ h.0 (inr h.1), h.1)))

    move_pdf-Does :
        Does (Recoverable t old) (Begun t old recovering) (move_pdf recovering t) (λ u a. AtDisk a)
    unfolding move_pdf
    move_pdf-Does =
        Does-bind
          {Mid = λ b a.
            Begun t old recovering a × (b ≡ moves t.prior_path t.row.archive_path a.disk)}
          _ _ (Does-gets _ (λ a h. (h, refl)))
          (λ b.
            Does-if b _ _ (λ e. Does-weaken (λ a h. (h.0, sym h.1 ∙ e)) move_durably-Does)
              (λ e. Does-pure tt (λ a h. (h.0, disk_done t old a h.0.0 (sym h.1 ∙ e)))))

    no_refresh : t.text ≡ none → refresh_content recovering t ≡ pure tt
    unfolding refresh_content
    no_refresh e = rw e refl

    refresh :
        (text : DocumentText)
        → t.text ≡ some text
        → refresh_content recovering t ≡ durable (λ a. record a { content = some text })
    unfolding refresh_content
    refresh text e = rw e refl

    content_after-none : t.text ≡ none → content_after t old ≡ old.content
    content_after-none e = rw e refl

    content_after-some :
        (text : DocumentText) → t.text ≡ some text → content_after t old ≡ some text
    content_after-some text e = rw e refl

    content_kept :
        (a : Archive) → t.text ≡ none → IsPending t old a → a.content ≡ content_after t old
    content_kept a e p = elim p.content [ inl q ↦ q ∙ sym (content_after-none e) | inr q ↦ q ]

    pending_content :
        (a : Archive) (text : DocumentText)
        → t.text ≡ some text
        → Begun t old recovering a
        → Begun t old recovering (record a { content = some text })
    pending_content a text e (p, r) = (
      record {
        noted = p.noted;
        disk = p.disk;
        content = inr (sym (content_after-some text e));
        rows = p.rows;
        trail = p.trail;
      },
      r,
    )

    refresh_content-Does :
        Does (Recoverable t old) AtDisk (refresh_content recovering t) (λ u a. AtContent a)
    refresh_content-Does = elim (Option-cases t.text) [
      | inl e ↦
          subst (λ r. Does (Recoverable t old) AtDisk r (λ u a. AtContent a)) (sym (no_refresh e))
            (Does-pure tt (λ a h. (h, content_kept a e h.0.0)))
      | inr (text, e) ↦
          subst (λ r. Does (Recoverable t old) AtDisk r (λ u a. AtContent a)) (sym (refresh text e))
            (Does-durable _ (λ a h. inr h.0.0)
              (λ a h. ((pending_content a text e h.0, h.1), sym (content_after-some text e))))
    ]

    write_row-free :
        (n : ℕ) (a : Archive)
        → a.rows ≡ old.rows
        → write_row t.row n a ≡ durable (λ b. record b { rows = b.rows ++ t.row ∷ [] }) n a
    unfolding write_row
    write_row-free n a e =
        let free : any_of (λ r. r.assessment_seq == t.row.assessment_seq) a.rows ≡ false =
          rw e new.fresh in
        rw free refl

    pending_rows :
        (a : Archive)
        → Begun t old recovering a
        → a.rows ≡ old.rows
        → Begun t old recovering (record a { rows = a.rows ++ t.row ∷ [] })
          × (a.rows ++ t.row ∷ [] ≡ old.rows ++ t.row ∷ [])
    pending_rows a (p, r) e =
        let q : a.rows ++ t.row ∷ [] ≡ old.rows ++ t.row ∷ [] = rw e refl in
        (
          (
            record {
              noted = p.noted;
              disk = p.disk;
              content = p.content;
              rows = inr q;
              trail = p.trail;
            },
            r,
          ),
          q,
        )

    write_row-Does :
        Does
          (Recoverable t old)
          (λ a. AtContent a × (a.rows ≡ old.rows))
          (write_row t.row)
          (λ u a. AtRows a)
    write_row-Does = record {
      at = λ n a h.
          subst (Ended (Recoverable t old) (λ u a. AtRows a)) (sym (write_row-free n a h.1)) (
            (Does-durable {Pre = λ a. AtContent a × (a.rows ≡ old.rows)} _ (λ a h. inr h.0.0.0.0)
                (λ a h. let (b, e) = pending_rows a h.0.0.0 h.1 in (((b, h.0.0.1), h.0.1), e))).at
              n a h);
    }

    index_transition-Does :
        Does
          (Recoverable t old)
          (λ a. AtContent a)
          (index_transition recovering t)
          (λ u a. AtRows a)
    unfolding index_transition
    index_transition-Does =
        Does-bind {Mid = λ b a. AtContent a × (b ≡ is_unwritten t.row a.rows)} _ _
          (Does-gets _ (λ a h. (h, refl)))
          (λ b.
            Does-if b _ _
              (λ e.
                Does-weaken (λ a h. (h.0, rows_todo t old a new h.0.0.0.0 (sym h.1 ∙ e)))
                  write_row-Does)
              (λ e. Does-pure tt (λ a h. (h.0, rows_done t old a new h.0.0.0.0 (sym h.1 ∙ e)))))

    complete :
        (a : Archive)
        → AtRows a
        → a.trail ≡ old.trail ++ t.event ∷ []
        → record a { transition = none } ≡ carried_out t old
    complete a h r = rw (h.0.0.1, h.0.1, h.1, r) refl

    recorded_now :
        (a : Archive)
        → AtRows a
        → a.trail ≡ old.trail
        → IsPending t old (record a { trail = a.trail ++ t.event ∷ [] })
          × (record a { trail = a.trail ++ t.event ∷ []; transition = none } ≡ carried_out t old)
    recorded_now a h r =
        let p = h.0.0.0.0 in
        let e : a.trail ++ t.event ∷ [] ≡ old.trail ++ t.event ∷ [] = rw r refl in
        (
          record {
            noted = p.noted;
            disk = p.disk;
            content = p.content;
            rows = p.rows;
            trail = inr e;
          },
          rw (h.0.0.1, h.0.1, h.1, e) refl,
        )

    audit_transition-Does :
        Does
          (Recoverable t old)
          (λ a. AtRows a)
          (audit_transition recovering t)
          (λ u a. IsPending t old a × (record a { transition = none } ≡ carried_out t old))
    unfolding audit_transition
    audit_transition-Does =
        Does-bind
          {Mid = λ b a. AtRows a × (b ≡ recovering && any_of (λ e. same_event e t.event) a.trail)} _
          _ (Does-gets _ (λ a h. (h, refl)))
          (λ b.
            Does-if b _ _
              (λ e. Does-pure tt (λ a h.
                let r = trail_done t old recovering a new h.0.0.0.0.0 (sym h.1 ∙ e) in
                (h.0.0.0.0.0, complete a h.0 r)))
              (λ e.
                Does-durable _ (λ a h. inr h.0.0.0.0.0)
                  (λ a h.
                    let r = trail_todo t old recovering a h.0.0.0.0.0 h.0.0.0.0.1 (sym h.1 ∙ e) in
                    recorded_now a h.0 r)))

    pub apply_transition-Does :
        Does
          (Recoverable t old)
          (Begun t old recovering)
          (apply_transition recovering t)
          (λ u a. a ≡ carried_out t old)
    unfolding apply_transition
    apply_transition-Does = Does-bind _ _ move_pdf-Does (λ u.
        Does-bind _ _ refresh_content-Does (λ u. Does-bind _ _ index_transition-Does (λ u.
          Does-bind _ _ audit_transition-Does (λ u. Does-durable _ (λ a h. inr h.0) (λ a h. h.1)))))
