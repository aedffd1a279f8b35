-- ===== src/Pipeline/Finish/Arriving.antt =====
-- A file of the drop folder that becomes a job (dlpduck/pipeline.py, `run_job`).
use mathlib.Core.Path.{subst}
use dlpduck.Prelude.{
  ℕ, String, ◌≡◌, refl, sym, ap, ◌⊎◌, inl, inr, Bool, false, Option, none, some, List, arith,
  str_eq,
}
use dlpduck.Document.{Text, DocumentText}
use dlpduck.Metadata.{Printing}
use dlpduck.Run.{Progress, crashed, raised, going, Run}
use dlpduck.Run.Does.{
  Ended, Does, Does-raise, Does-gets, Does-if, Does-durable, Does-bind, Ended-handle, Does-given,
  Ended-map, Does-map,
}
use dlpduck.Pipeline.State.{JobContext, IndexRow, Stores}
use dlpduck.Pipeline.Process.{Extraction, Scanned, Plugin}
use dlpduck.Pipeline.Intake.{
  Intake, Content, Arrived, as_source, read_source, is_refusal, lift, on_stores,
}
use dlpduck.Pipeline.Claim.{Arrival, claim, reject_entry, reject_at_claim}
use dlpduck.Pipeline.Claim.Staging.{IsFresh, Kept, ClaimedAs, claim_locked-Does, IsClaimed-for}
use dlpduck.Pipeline.Finish.{
  finish_staged, receive_again, try_read, is_duplicate, after_claim, refuse, run_job,
}
use dlpduck.Pipeline.Finish.Whole.{IsHandled, IsOver, finish_staged-Does}

Ended-lift :
    {A : Type 0} (Keep : Stores → Type 0) (Post : A → Stores → Type 0) (w : Intake)
    (p : Progress Stores A)
    → Ended Keep Post p
    → Ended (λ w'. Keep w'.stores) (λ x w'. Post x w'.stores) (lift w p)
Ended-lift Keep Post w (crashed s) h = h
Ended-lift Keep Post w (raised e s) h = h
Ended-lift Keep Post w (going x n s) h = h

pub on_stores-Does :
    {A : Type 0} {Keep Pre : Stores → Type 0} {Post : A → Stores → Type 0} (r : Run Stores A)
    → Does Keep Pre r Post
    → Does (λ w. Keep w.stores) (λ w. Pre w.stores) (on_stores r) (λ x w. Post x w.stores)
on_stores-Does r k = record { at = λ n w h. Ended-lift _ _ w (r n w.stores) (k.at n w.stores h) }

module _ (today : ℕ) (a : Arrival) (src : Option ℕ) where
  -- The document is where it came from, staged under its receipt, or among the refused files.
  abbrev pub IsLocated : Intake → Type 0
  IsLocated w =
      (w.source ≡ src)
      ⊎ (IsHandled a.content.job_id a.receipt_id (some today) w.stores
          ⊎ ((why : Option String) × (w.rejected ≡ some why)))

  Kept-IsLocated : (w : Intake) → Kept today a none src w → IsLocated w
  Kept-IsLocated w (inl e) = inl e
  Kept-IsLocated w (inr (m, s, d, n, l, z)) = inr (inl (s, (m, d, n, rw z (ground arith))))

  module _ (py : Printing) (fields : List Text) where
    IsRefused : Intake → Type 0
    IsRefused w = (why : Option String) × (w.rejected ≡ some why)

    reject_entry-Does :
        (id e : String) (o : Option ℕ)
        → Does IsLocated IsLocated (reject_entry py fields today id e o) (λ u w. IsLocated w)
    unfolding IsRefused
    reject_entry-Does id e none = Does-raise _ (λ w h. h)
    reject_entry-Does id e (some i) =
        Does-bind {Mid = λ u w. IsRefused w} _ _ (Does-durable _ (λ w h. h) (λ w h. (none, refl)))
          (λ u.
            Does-bind {Mid = λ u w. IsRefused w} _ _
              (Does-durable _ (λ w h. inr (inr h)) (λ w h. (some e, refl)))
              (λ u. Does-durable _ (λ w h. inr (inr h)) (λ w h. inr (inr h))))

    reject_at_claim-Does :
        (id e : String)
        → Does IsLocated IsLocated (reject_at_claim py fields today id e) (λ u w. IsLocated w)
    unfolding reject_at_claim
    reject_at_claim-Does id e =
        Does-bind {Mid = λ o w. IsLocated w} _ _ (Does-gets _ (λ w h. h)) (reject_entry-Does id e)

module _ (today : ℕ) (rules : String) (on_degraded : Bool) (scan_text : DocumentText → Scanned)
    (enrichers sinks : List Plugin) (py : Printing) (fields : List Text) (limit : ℕ)
    (fingerprint : String) (arrival : Content → ℕ → Bool → Arrival) (c : Content) (i : ℕ)
    (conv : Bool) (src : Option ℕ) where
  abbrev this : Arrival
  this = arrival c i conv

  -- A new receipt, and a document that is not in the index.
  abbrev IsNew : Intake → Type 0
  IsNew w = (w.source ≡ src) × IsFresh today this none src w

  receive-Does :
      (o : Option IndexRow)
      → o ≡ none
      → Does
          (IsLocated today this src)
          IsNew
          (receive_again today rules on_degraded scan_text enrichers sinks py fields limit false
            fingerprint arrival this o)
          (ClaimedAs today this none src py fields)
  unfolding claim
  receive-Does none e =
      Does-map (Kept-IsLocated today this src) (λ ctx w h. h)
        (claim_locked-Does today this none src py fields)
  receive-Does (some prior) e = absurd (cc e)

  try_read-Does :
      Does
        (IsLocated today this src)
        IsNew
        (try_read today rules on_degraded scan_text enrichers sinks py fields limit false
          fingerprint arrival
          (as_source c i conv))
        (ClaimedAs today this none src py fields)
  try_read-Does =
      Does-bind {Mid = λ o w. IsNew w × (o ≡ none)} _ _ (Does-gets _ (λ w h. (h, h.1.2)))
        (λ o. Does-given (receive-Does o))

  module _ (r : str_eq (arrival c i conv).receipt_id "" ≡ false) where
    after_claim-Does :
        (extraction : Extraction) (ctx : JobContext)
        → Does
            (IsLocated today this src)
            (ClaimedAs today this none src py fields ctx)
            (after_claim today rules on_degraded scan_text enrichers sinks py fields limit false
              fingerprint arrival extraction ctx)
            (λ ctx' w.
              IsOver this.content.job_id this.receipt_id
                (some today)
                today
                rules
                on_degraded
                scan_text
                enrichers
                sinks
                ctx'
                w.stores)
    after_claim-Does extraction ctx = record {
      at = λ n w h.
          let unlike : is_duplicate today rules on_degraded scan_text enrichers sinks py fields
                limit false fingerprint arrival ctx
              ≡ false =
            subst
              (λ x.
                is_duplicate today rules on_degraded scan_text enrichers sinks py fields limit false
                  fingerprint arrival x
                ≡ false)
              (sym h.3) refl in
          let same : ctx.job_id ≡ this.content.job_id = ap (λ (x : JobContext). x.job_id) h.3 in
          let whole =
            on_stores-Does
              (finish_staged today rules on_degraded scan_text enrichers sinks ctx extraction)
              (finish_staged-Does this.content.job_id this.receipt_id (some today) today rules
                on_degraded scan_text enrichers sinks r (ground arith) ctx extraction same) in
          rw unlike (
            Ended-map _
              (on_stores
                (finish_staged today rules on_degraded scan_text enrichers sinks ctx extraction) n
                w)
              (λ w' k. inr (inl k))
              (whole.at n w (IsClaimed-for today this none src py fields ctx w h, h.1.0.fresh.2)));
    }

    refuse-Does :
        (e : String)
        → Does
            (IsLocated today this src)
            (IsLocated today this src)
            (refuse today rules on_degraded scan_text enrichers sinks py fields limit false
              fingerprint arrival e)
            (λ ctx' w.
              IsOver this.content.job_id this.receipt_id
                (some today)
                today
                rules
                on_degraded
                scan_text
                enrichers
                sinks
                ctx'
                w.stores)
    refuse-Does e =
        Does-if (is_refusal e) _ _
          (λ q.
            Does-bind {Mid = λ u w. IsLocated today this src w} _ _
              (reject_at_claim-Does today this src py fields fingerprint e)
              (λ u. Does-raise e (λ w h. h)))
          (λ q. Does-raise e (λ w h. h))

-- A file that is read, whose document is not in the index, with a new receipt whose id is not
-- blank, while nobody else holds the job: wherever `run_job` is cut, and whatever it raises, the
-- document is where it came from, staged under its receipt with its completion on the trail at most
-- once, or among the refused files. If it returns, either the job is committed, its completion once
-- on the trail, its emit plugins run once each in order, its PDF in the folder of its disposition
-- and its index row and content stored, or the job is in the folder of failures with its reason and
-- not on the trail as completed.
pub run_job_whole :
    (today : ℕ) (rules : String) (on_degraded : Bool) (scan_text : DocumentText → Scanned)
    (enrichers sinks : List Plugin) (py : Printing) (fields : List Text) (limit : ℕ)
    (fingerprint : String) (arrival : Content → ℕ → Bool → Arrival) (arrived : Arrived)
    (extraction : Extraction) (c : Content) (i : ℕ) (conv : Bool) (n : ℕ) (w : Intake)
    → read_source limit arrived ≡ as_source c i conv
    → str_eq (arrival c i conv).receipt_id "" ≡ false
    → IsFresh today (arrival c i conv) none w.source w
    → Ended
        (IsLocated today (arrival c i conv) w.source)
        (λ ctx w'.
          IsOver
            (arrival c i conv).content.job_id
            (arrival c i conv).receipt_id
            (some today)
            today
            rules
            on_degraded
            scan_text
            enrichers
            sinks
            ctx
            w'.stores)
        (run_job today rules on_degraded scan_text enrichers sinks py fields limit false fingerprint
          arrival arrived extraction n w)
unfolding run_job
run_job_whole today rules on_degraded scan_text enrichers sinks py fields limit fingerprint arrival
      arrived extraction c i conv n w e r f =
    rw e (
      Ended-handle _ _ _ n
        (after_claim-Does today rules on_degraded scan_text enrichers sinks py fields limit
          fingerprint arrival c i conv w.source r extraction)
        (refuse-Does today rules on_degraded scan_text enrichers sinks py fields limit fingerprint
          arrival c i conv w.source r)
        ((try_read-Does today rules on_degraded scan_text enrichers sinks py fields limit
            fingerprint arrival c i conv w.source).at
          n w (refl, f)))
