-- ===== src/Pipeline/Claim/Staging.antt =====
-- A claim that is cut anywhere (dlpduck/pipeline.py, `_claim_locked`).
use mathlib.Core.Path.{subst}
use dlpduck.Prelude.{
  ℕ, String, ◌≡◌, refl, sym, ap, ◌∙◌, ◌⊎◌, inl, inr, true, false, Option, none, some, List, [],
  arith, str_eq, any_of,
}
use dlpduck.Document.{Text}
use dlpduck.Metadata.{Members, Fields, Printing, allowlist, Parsed, fields_of, malformed}
use dlpduck.Run.{pure, durable, ◌>>◌}
use dlpduck.Run.Does.{
  Ended, Does, Does-pure, Does-raise, Does-gets, Does-if, Does-durable, Does-bind, Ended-weaken,
}
use dlpduck.Pipeline.State.{JobContext, Manifest, JobEvent, converted, metadata_rejected, IndexRow}
use dlpduck.Pipeline.Commit.{is_completion}
use dlpduck.Pipeline.Commit.Steps.{count_if, count_if-snoc}
use dlpduck.Pipeline.Commit.Retried.{IsClaimed}
use dlpduck.Pipeline.Intake.{
  Companion, link, swapped, held, Receipt, Intake, log_in, unlink_source, put_receipt,
  receipt_metadata,
}
use dlpduck.Pipeline.Claim.{
  Arrival, first_manifest, put_manifest, publish_pdf, context_of, reject_metadata, read_companion,
  take_entry, take_path, take_companion, settle_metadata, record_origin, claim_locked,
}
use dlpduck.Pipeline.Claim.Writes.{
  left_of, source-unlink_source, stores-unlink_source, stores-put_receipt, has-put_receipt,
  has-receipt_metadata, companion-unlink_companion,
}

module _ (today : ℕ) (a : Arrival) (row : Option IndexRow) (src : Option ℕ) where
  abbrev pub completions_of : Intake → ℕ
  completions_of w =
      count_if (is_completion a.content.job_id (some a.receipt_id) (some today)) w.stores.trail

  -- Nothing was said of the receipt, nothing delivered, and this is in the index.
  abbrev pub IsFresh : Intake → Type 0
  IsFresh w = (completions_of w ≡ 0) × (w.stores.delivered ≡ []) × (w.stores.index ≡ row)

  -- The job is staged, with this manifest, and this is left at the path.
  pub record Staging (left : Option ℕ) (m : Manifest) (w : Intake) : Type 0 where
    pub fresh : IsFresh w
    pub published : w.stores.staged ≡ true
    pub on_disk : w.stores.manifest ≡ some m
    pub named : (m.receipt_id ≡ some a.receipt_id) × (m.received_at ≡ some today)
    pub unstarted : m.steps ≡ []
    pub entry : w.source ≡ left

  -- The document is in the drop folder, or staged with a manifest that names the receipt.
  abbrev pub Kept : Intake → Type 0
  Kept w =
      (w.source ≡ src)
      ⊎ ((m : Manifest) × (w.stores.staged ≡ true)
          × (w.stores.manifest ≡ some m)
          × (m.receipt_id ≡ some a.receipt_id)
          × (w.source ≡ left_of a.opened src)
          × (completions_of w ≡ 0))

  Staging-Kept : (m : Manifest) (w : Intake) → Staging (left_of a.opened src) m w → Kept w
  Staging-Kept m w s = inr (m, s.published, s.on_disk, s.named.0, s.entry, s.fresh.0)

  abbrev pub HasReceipt : Intake → Type 0
  HasReceipt w = any_of (λ (x : Receipt). str_eq x.id a.receipt_id) w.receipts ≡ true

  -- Staged, and received.
  abbrev pub Received : Manifest → Intake → Type 0
  Received m w = Staging (left_of a.opened src) m w × HasReceipt w

  abbrev IsOther : JobEvent → Type 0
  IsOther e = is_completion a.content.job_id (some a.receipt_id) (some today) e ≡ false

  log-IsFresh : (e : JobEvent) (w : Intake) → IsOther e → IsFresh w → IsFresh (log_in e w)
  log-IsFresh e w o f = (
    ground (
      arith,
      o,
      f.0,
      count_if-snoc (is_completion a.content.job_id (some a.receipt_id) (some today)) w.stores.trail
          e,
    ),
    f.1,
    f.2,
  )

  log-Received :
      (e : JobEvent) (m : Manifest) (w : Intake)
      → IsOther e
      → Received m w
      → Received m (log_in e w)
  log-Received e m w o (s, r) = (
    record {
      fresh = log-IsFresh e w o s.fresh;
      published = s.published;
      on_disk = s.on_disk;
      named = s.named;
      unstarted = s.unstarted;
      entry = s.entry;
    },
    r,
  )

  -- A write that keeps what is received.
  keeps-Does :
      (m m' : Manifest) (g : Intake → Intake)
      → ((w : Intake) → Received m w → Received m' (g w))
      → Does Kept (Received m) (durable g) (λ u w. Received m' w)
  keeps-Does m m' g f = Does-durable g (λ w h. Staging-Kept m w h.0) f

  publish-Does :
      (m : Manifest)
      → m ≡ first_manifest today a
      → Does Kept
          (λ w. (w.source ≡ src) × IsFresh w × (w.stores.manifest ≡ some m))
          (durable publish_pdf)
          (λ u w. Staging src m w)
  publish-Does m e =
      Does-durable publish_pdf (λ w h. inl h.0)
        (λ w h. record {
          fresh = h.1;
          published = refl;
          on_disk = h.2;
          named = rw e (refl, refl);
          unstarted = rw e refl;
          entry = h.0;
        })

  unlinked :
      (m : Manifest) (w : Intake)
      → Staging src m w
      → Staging (left_of a.opened src) m (unlink_source a.opened w)
  unlinked m w s =
      let same = stores-unlink_source a.opened w in
      record {
        fresh = rw same s.fresh;
        published = rw same s.published;
        on_disk = rw same s.on_disk;
        named = s.named;
        unstarted = s.unstarted;
        entry = source-unlink_source a.opened w ∙ ap (left_of a.opened) s.entry;
      }

  received :
      (m : Manifest) (w : Intake)
      → Staging (left_of a.opened src) m w
      → Received m (put_receipt a.receipt_id a.name w)
  received m w s =
      let same = stores-put_receipt a.receipt_id a.name w in
      (
        record {
          fresh = rw same.0 s.fresh;
          published = rw same.0 s.published;
          on_disk = rw same.0 s.on_disk;
          named = s.named;
          unstarted = s.unstarted;
          entry = same.1 ∙ s.entry;
        },
        has-put_receipt a.receipt_id a.name w,
      )

  -- What the writes to the companion leave alone.
  same_job :
      (m : Manifest) (w w' : Intake)
      → (w'.stores ≡ w.stores) × (w'.source ≡ w.source) × (w'.receipts ≡ w.receipts)
      → Received m w
      → Received m w'
  same_job m w w' e (s, r) = (
    record {
      fresh = rw e.0 s.fresh;
      published = rw e.0 s.published;
      on_disk = rw e.0 s.on_disk;
      named = s.named;
      unstarted = s.unstarted;
      entry = e.1 ∙ s.entry;
    },
    rw e.2 r,
  )

  remanifest :
      (m m' : Manifest) (w : Intake)
      → (m'.receipt_id ≡ m.receipt_id) × (m'.received_at ≡ m.received_at) × (m'.steps ≡ m.steps)
      → Received m w
      → Received m' (put_manifest m' w)
  remanifest m m' w e (s, r) = (
    record {
      fresh = s.fresh;
      published = s.published;
      on_disk = refl;
      named = (e.0 ∙ s.named.0, e.1 ∙ s.named.1);
      unstarted = e.2 ∙ s.unstarted;
      entry = s.entry;
    },
    r,
  )

  rejection : (name error : String) → IsOther (metadata_rejected today a.content.job_id name error)
  unfolding is_completion
  rejection name error = refl

  conversion : IsOther (converted today a.content.job_id a.receipt_id)
  unfolding is_completion
  conversion = refl

  with_receipt_metadata :
      (metadata : Fields) (m : Manifest) (w : Intake)
      → Received m w
      → Received m (receipt_metadata a.receipt_id metadata w)
  unfolding receipt_metadata
  with_receipt_metadata metadata m w (s, r) = (
    record {
      fresh = s.fresh;
      published = s.published;
      on_disk = s.on_disk;
      named = s.named;
      unstarted = s.unstarted;
      entry = s.entry;
    },
    has-receipt_metadata a.receipt_id metadata w.receipts ∙ r,
  )

  module _ (py : Printing) (fields : List Text) where
    reject-Does :
        (m : Manifest) (name error : String) (x : Manifest × Members)
        → x.0 ≡ m
        → Does Kept
            (Received m)
            (reject_metadata py fields today a name error >> pure x)
            (λ r w. Received r.0 w)
    reject-Does m name error x e =
        Does-bind _ _
          (keeps-Does m m _ (λ w h.
            log-Received (metadata_rejected today a.content.job_id name error) m w
              (rejection name error) h))
          (λ u. Does-pure x (λ w h. rw e h))

    read_companion-Does :
        (m : Manifest) (name : String) (p : Parsed)
        → Does Kept (Received m) (read_companion py fields today a m name p) (λ r w. Received r.0 w)
    read_companion-Does m name (fields_of ms) = Does-pure _ (λ w h. h)
    read_companion-Does m name (malformed error) = reject-Does m name error _ refl

    take_entry-Does :
        (m : Manifest) (name : String) (o : Option Companion)
        → Does Kept (Received m) (take_entry py fields today a m name o) (λ r w. Received r.0 w)
    unfolding take_entry
    take_entry-Does m name none = Does-pure _ (λ w h. h)
    take_entry-Does m name (some link) =
        Does-bind _ _ (keeps-Does m m _ (λ w h. same_job m w _ (refl, refl, refl) h))
          (λ u. reject-Does m name "symlink refused" _ refl)
    take_entry-Does m name (some swapped) = Does-raise _ (λ w h. Staging-Kept m w h.0)
    take_entry-Does m name (some (held i none)) =
        Does-bind _ _ (keeps-Does m m _ (λ w h. same_job m w _ (companion-unlink_companion i w) h))
          (λ u. reject-Does m name "exceeds limits.max_metadata_bytes" _ refl)
    take_entry-Does m name (some (held i (some parsed))) =
        let m' : Manifest = record m { companion = some name } in
        Does-bind _ _ (keeps-Does m m _ (λ w h. same_job m w _ (refl, refl, refl) h)) (λ u.
          Does-bind _ _ (keeps-Does m m' _ (λ w h. remanifest m m' w (refl, refl, refl) h)) (λ u.
            Does-bind _ _
              (keeps-Does m' m' _ (λ w h. same_job m' w _ (companion-unlink_companion i w) h))
              (λ u. read_companion-Does m' name parsed)))

    take_path-Does :
        (m : Manifest) (o : Option String)
        → Does Kept (Received m) (take_path py fields today a m o) (λ r w. Received r.0 w)
    take_path-Does m none = Does-pure _ (λ w h. h)
    take_path-Does m (some name) =
        Does-bind {Mid = λ o w. Received m w} _ _ (Does-gets _ (λ w h. h)) (take_entry-Does m name)

    take_companion-Does :
        (m : Manifest)
        → Does Kept (Received m) (take_companion py fields today a m) (λ r w. Received r.0 w)
    unfolding take_companion
    take_companion-Does m = take_path-Does m a.metadata_path

    -- The context of a claim goes with the manifest that is left.
    abbrev pub ClaimedAs : JobContext → Intake → Type 0
    ClaimedAs ctx w =
        (m : Manifest) × Received m w
        × (m.metadata ≡ some ctx.metadata)
        × (ctx ≡ context_of today a ctx.metadata none)

    settle_metadata-Does :
        (r : Manifest × Members)
        → Does Kept (Received r.0) (settle_metadata py fields today a r) ClaimedAs
    unfolding settle_metadata
    settle_metadata-Does (m, raw) =
        let kept = allowlist py raw fields in
        let m' : Manifest = record m { metadata = some kept } in
        Does-bind _ _ (keeps-Does m m _ (λ w h. with_receipt_metadata kept m w h)) (λ u.
          Does-bind _ _ (keeps-Does m m' _ (λ w h. remanifest m m' w (refl, refl, refl) h))
            (λ u. Does-pure _ (λ w h. (m', h, refl, refl))))

    record_origin-Does :
        (m : Manifest)
        → Does Kept (Received m) (record_origin py fields today a) (λ u w. Received m w)
    record_origin-Does m =
        Does-if a.is_converted _ _ (λ e. keeps-Does m m _ (λ w h. log-Received _ m w conversion h))
          (λ e. Does-pure tt (λ w h. h))

    pub claim_locked-Does :
        Does Kept (λ w. (w.source ≡ src) × IsFresh w) (claim_locked py fields today a) ClaimedAs
    unfolding claim_locked
    claim_locked-Does =
        let m = first_manifest today a in
        Does-bind {Mid = λ u w. (w.source ≡ src) × IsFresh w × (w.stores.manifest ≡ some m)} _ _
          (Does-durable _ (λ w h. inl h.0) (λ w h. (h.0, h.1, refl)))
          (λ u. Does-bind _ _ (publish-Does m refl) (λ u.
            Does-bind {Mid = λ u w. Staging (left_of a.opened src) m w} _ _
              (Does-durable _ (λ w h. inl h.entry) (λ w h. unlinked m w h))
              (λ u.
                Does-bind {Mid = λ u w. Received m w} _ _
                  (Does-durable _ (λ w h. Staging-Kept m w h) (λ w h. received m w h))
                  (λ u.
                    Does-bind _ _ (record_origin-Does m)
                      (λ u. Does-bind _ _ (take_companion-Does m) settle_metadata-Does)))))

    pub IsClaimed-for :
        (ctx : JobContext) (w : Intake)
        → ClaimedAs ctx w
        → IsClaimed ctx a.receipt_id (some today) w.stores
    IsClaimed-for ctx w (m, h, e, f) = record {
      manifest = m;
      on_disk = h.0.on_disk;
      present = h.0.published;
      named = h.0.named;
      fresh = h.0.unstarted;
      untold =
          subst
            (λ j. count_if (is_completion j (some a.receipt_id) (some today)) w.stores.trail ≡ 0)
            (sym (ap (λ (c : JobContext). c.job_id) f)) h.0.fresh.0;
      undelivered = h.0.fresh.1;
    }

-- A claim whose receipt is new, of a document for which nothing was delivered, and that is cut at
-- any of its writes or stopped by an exception, has left the path as it was, or has the document
-- staged with a manifest that names the receipt and has unlinked exactly the file that was read,
-- with no completion on the trail. A claim that returns leaves the job fit to be committed, with
-- the receipt on record, the metadata that it returns kept with the job, and the index as it was.
pub claim_keeps_document :
    (py : Printing) (fields : List Text) (today : ℕ) (a : Arrival) (n : ℕ) (w : Intake)
    → IsFresh today a w.stores.index w.source w
    → Ended
        (Kept today a w.stores.index w.source)
        (λ ctx w'.
          IsClaimed ctx a.receipt_id (some today) w'.stores
          × ClaimedAs today a w.stores.index w.source py fields ctx w')
        (claim_locked py fields today a n w)
claim_keeps_document py fields today a n w f =
    Ended-weaken (λ w' h. h)
      (λ ctx w' h. (IsClaimed-for today a w.stores.index w.source py fields ctx w' h, h))
      (claim_locked py fields today a n w)
      ((claim_locked-Does today a w.stores.index w.source py fields).at n w (refl, f))
