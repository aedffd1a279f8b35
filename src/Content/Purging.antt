-- ===== src/Content/Purging.antt =====
-- `Pipeline.purge_content` and `_drop_pending_transition_text` (dlpduck/pipeline.py), of one job
-- under
-- the lock, whose id passes `validate_job_id`.
use mathlib.Core.Path.{subst}
use mathlib.Core.List.{append_assoc}
use dlpduck.Prelude.{
  ℕ, ◌≡◌, refl, sym, ap, ◌∙◌, ◌⊎◌, inl, inr, Bool, true, false, Option, none, some, List, [], ◌∷◌,
  ◌++◌, if◌then◌else◌,
}
use dlpduck.Run.{Run, pure, gets, durable, ◌>>=◌, ◌>>◌}
use dlpduck.Run.Does.{Ended, Does, Does-pure, Does-gets, Does-durable, Does-bind, Does-given}

pub data PurgeEvent : Type 0 where
  purge_started : Bool → PurgeEvent  -- mode: hard or soft
  content_purged : Bool → Bool → Option Bool → Bool → PurgeEvent

-- Whether the job's content, its PDF and the text of a pending transition are on disk; and the
-- trail.
pub record Holdings : Type 0 where
  pub content : Bool
  pub document : Bool
  pub pending_text : Bool
  pub trail : List PurgeEvent

abbrev pub note : PurgeEvent → Holdings → Holdings
note e w = record w { trail = w.trail ++ e ∷ [] }

abbrev pub drop_pending_text : Bool → Run Holdings Bool
drop_pending_text true = durable (λ w. record w { pending_text = false }) >> pure true
drop_pending_text false = pure false

abbrev pub purge_document_if : Bool → Run Holdings (Option Bool)
purge_document_if true = gets (λ w. w.document) >>= λ there.
    durable (λ w. record w { document = false }) >> pure (some there)
purge_document_if false = pure none

abbrev pub report : Bool → Bool → Bool → Option Bool → Run Holdings (Bool × Option Bool)
report hard content_removed text_dropped document_removed =
    durable (note (content_purged hard content_removed document_removed text_dropped))
    >> pure (content_removed, document_removed)

abbrev pub purge_rest : Bool → Bool → Bool → Run Holdings (Bool × Option Bool)
purge_rest hard content_removed text_dropped =
    purge_document_if hard >>= report hard content_removed text_dropped

abbrev pub purge_text : Bool → Bool → Run Holdings (Bool × Option Bool)
purge_text hard content_removed =
    gets (λ w. w.pending_text) >>= drop_pending_text >>= purge_rest hard content_removed

abbrev pub purge_file : Bool → Bool → Run Holdings (Bool × Option Bool)
purge_file hard there = durable (λ w. record w { content = false }) >> purge_text hard there

-- `purge_content`: what was removed of the content, and of the PDF where that was asked for.
unfoldable pub purge_job : Bool → Run Holdings (Bool × Option Bool)
unfolding ◌>>=◌
purge_job hard = durable (note (purge_started hard)) >> (gets (λ w. w.content) >>= purge_file hard)

-- Nothing is touched, or the intent is the first thing that was put on the trail.
abbrev pub IsIntended : Bool → Holdings → Holdings → Type 0
IsIntended hard before w =
    (w ≡ before)
    ⊎ ((later : List PurgeEvent) × (w.trail ≡ before.trail ++ purge_started hard ∷ later))

module _ (hard : Bool) (before : Holdings) where
  abbrev with_trail : Bool → List PurgeEvent → Holdings
  with_trail d t = record { content = false; document = d; pending_text = false; trail = t }

  -- After the intent, with these things left.
  abbrev Left : Bool → Bool → Bool → Holdings → Type 0
  Left c d p w = w ≡ record {
    content = c;
    document = d;
    pending_text = p;
    trail = before.trail ++ purge_started hard ∷ [];
  }

  Left-IsIntended : (c d p : Bool) (w : Holdings) → Left c d p w → IsIntended hard before w
  Left-IsIntended c d p w e = inr ([], ap (λ (h : Holdings). h.trail) e)

  abbrev Reported : Bool → Option Bool → Bool → Bool → Bool × Option Bool → Holdings → Type 0
  Reported c o d p found w =
      (found ≡ (c, o))
      × (w ≡ record {
        content = false;
        document = d;
        pending_text = false;
        trail = before.trail ++ purge_started hard ∷ content_purged hard c o p ∷ [];
      })

  report-Does :
      (c p : Bool) (o : Option Bool) (d : Bool)
      → Does (IsIntended hard before) (Left false d false) (report hard c p o) (Reported c o d p)
  unfolding ◌>>=◌
  report-Does c p o d =
      Does-bind
        {Mid = λ u w. w ≡ record {
          content = false;
          document = d;
          pending_text = false;
          trail = before.trail ++ purge_started hard ∷ content_purged hard c o p ∷ [];
        }}
        _ _
        (Does-durable _ (λ w h. Left-IsIntended false d false w h)
          (λ w h.
            ap (note (content_purged hard c o p)) h
            ∙ ap (with_trail d) (
                append_assoc before.trail (purge_started hard ∷ [])
                  (content_purged hard c o p ∷ []))))
        (λ u. Does-pure _ (λ w h. (refl, h)))

  purge_rest-Does :
      (b c d p : Bool)
      → Does
          (IsIntended hard before)
          (Left false d false)
          (purge_document_if b >>= report hard c p)
          (Reported c (if b then some d else none) (if b then false else d) p)
  purge_rest-Does true c d p =
      Does-bind {Mid = λ o w. Left false false false w × (o ≡ some d)} _ _
        (Does-bind {Mid = λ there w. Left false d false w × (there ≡ d)} _ _
          (Does-gets _ (λ w h. (h, ap (λ (x : Holdings). x.document) h)))
          (λ there.
            Does-bind {Mid = λ u w. Left false false false w × (there ≡ d)} _ _
              (Does-durable _ (λ w h. Left-IsIntended false d false w h.0)
                (λ w h. (ap (λ (x : Holdings). record x { document = false }) h.0, h.1)))
              (λ u. Does-pure _ (λ w h. (h.0, ap some h.1)))))
        (λ o. Does-given (λ e. rw e (report-Does c p (some d) false)))
  purge_rest-Does false c d p =
      Does-bind {Mid = λ o w. Left false d false w × (o ≡ none)} _ _
        (Does-pure _ (λ w h. (h, refl))) (λ o. Does-given (λ e. rw e (report-Does c p none d)))

  drop_pending_text-Does :
      (c d p : Bool)
      → Does
          (IsIntended hard before)
          (Left c d p)
          (drop_pending_text p)
          (λ dropped w. Left c d false w × (dropped ≡ p))
  drop_pending_text-Does c d true =
      Does-bind {Mid = λ u w. Left c d false w} _ _
        (Does-durable _ (λ w h. Left-IsIntended c d true w h)
          (λ w h. ap (λ (x : Holdings). record x { pending_text = false }) h))
        (λ u. Does-pure _ (λ w h. (h, refl)))
  drop_pending_text-Does c d false = Does-pure _ (λ w h. (h, refl))

  abbrev Judged : Bool → Bool → Bool → Bool × Option Bool → Holdings → Type 0
  Judged c d p = Reported c (if hard then some d else none) (if hard then false else d) p

  purge_file-Does :
      (c d p : Bool) → Does (IsIntended hard before) (Left c d p) (purge_file hard c) (Judged c d p)
  purge_file-Does c d p =
      Does-bind {Mid = λ u w. Left false d p w} _ _
        (Does-durable _ (λ w h. Left-IsIntended c d p w h)
          (λ w h. ap (λ (x : Holdings). record x { content = false }) h))
        (λ u.
          Does-bind {Mid = λ dropped w. Left false d false w × (dropped ≡ p)} _ _
            (Does-bind {Mid = λ q w. Left false d p w × (q ≡ p)} _ _
              (Does-gets _ (λ w h. (h, ap (λ (x : Holdings). x.pending_text) h)))
              (λ q. Does-given (λ e.
                subst
                  (λ x.
                    Does (IsIntended hard before) (Left false d p) (drop_pending_text x)
                      (λ dropped w. Left false d false w × (dropped ≡ p)))
                  (sym e) (drop_pending_text-Does false d p))))
            (λ dropped. Does-given (λ e.
              subst
                (λ x.
                  Does (IsIntended hard before) (Left false d false) (purge_rest hard c x)
                    (Judged c d p))
                (sym e) (purge_rest-Does hard c d p))))

  purge_job-Does :
      Does
        (IsIntended hard before)
        (λ w. w ≡ before)
        (purge_job hard)
        (Reported before.content
          (if hard then some before.document else none)
          (if hard then false else before.document)
          before.pending_text)
  unfolding purge_job
  purge_job-Does =
      let c = before.content in
      let d = before.document in
      let p = before.pending_text in
      Does-bind {Mid = λ u w. Left c d p w} _ _
        (Does-durable _ (λ w h. inl h) (λ w h. ap (note (purge_started hard)) h))
        (λ u.
          Does-bind {Mid = λ there w. Left c d p w × (there ≡ c)} _ _
            (Does-gets _ (λ w h. (h, ap (λ (x : Holdings). x.content) h)))
            (λ there. Does-given (λ e.
              subst
                (λ x. Does (IsIntended hard before) (Left c d p) (purge_file hard x) (Judged c d p))
                (sym e) (purge_file-Does c d p))))

-- A purge that is cut has touched nothing, or its intent follows at once on the trail as it was.
-- One that returns has removed the content and the text of a pending transition, and the PDF
-- exactly if that was asked for; and the trail, which has the intent and then one more event, says
-- what there was to remove.
pub purge_job_lem :
    (hard : Bool) (n : ℕ) (before : Holdings)
    → Ended
        (IsIntended hard before)
        (λ found w.
          (found ≡ (before.content, (if hard then some before.document else none)))
          × (w ≡ record {
            content = false;
            document = if hard then false else before.document;
            pending_text = false;
            trail =
                before.trail
                ++ purge_started hard
                  ∷ content_purged hard before.content
                      (if hard then some before.document else none)
                      before.pending_text
                  ∷ [];
          }))
        (purge_job hard n before)
purge_job_lem hard n before = (purge_job-Does hard before).at n before refl
