-- ===== src/Pipeline/Claim/Duplicates.antt =====
-- Arrivals of a document that is known already (dlpduck/pipeline.py, `_record_duplicate_arrival`).
use dlpduck.Prelude.{ℕ, String, ◌≡◌, ◌⊎◌, true, ◌&&◌, Option, List, [], ◌∷◌, ◌++◌, str_eq, any_of}
use dlpduck.Document.{Text}
use dlpduck.Metadata.{Printing}
use dlpduck.Run.Does.{Does}
use dlpduck.Pipeline.State.{JobEvent, Stores}
use dlpduck.Pipeline.Intake.{Receipt, Intake}
use dlpduck.Pipeline.Claim.{Arrival}

module _ (today : ℕ) (a : Arrival) (before : Stores) (src : Option ℕ) where
  -- The stores are as before, but for events that follow those on the trail and outcomes that are
  -- added to those of receipts.
  abbrev pub IsGrown : Stores → Type 0
  IsGrown s =
      (s ≡ record before { trail = s.trail; finished = s.finished })
      × ((more : List JobEvent) × (s.trail ≡ before.trail ++ more))
      × ((outcomes : List (String × String)) × (s.finished ≡ outcomes ++ before.finished))

  abbrev pub IsUntouched : Intake → Type 0
  IsUntouched w = IsGrown w.stores

  abbrev SameFile : Intake → Type 0
  SameFile w = IsUntouched w × (w.source ≡ src)

  -- The receipt has its outcome.
  abbrev pub IsTold : Intake → Type 0
  IsTold w =
      (any_of (λ (x : Receipt). str_eq x.id a.receipt_id) w.receipts ≡ true)
      × (any_of (λ (x : String × String). str_eq x.0 a.receipt_id && str_eq x.1 "duplicate")
            w.stores.finished
          ≡ true)

  -- The receipt has its outcome, and the event has been appended after what was on the trail.
  abbrev pub IsRecorded : JobEvent → Intake → Type 0
  IsRecorded event w =
      IsTold w × ((more : List JobEvent) × (w.stores.trail ≡ before.trail ++ more ++ event ∷ []))

  -- The file is still there, or all that is recorded.
  abbrev pub KeptOrTold : JobEvent → Intake → Type 0
  KeptOrTold event w = IsUntouched w × ((w.source ≡ src) ⊎ IsRecorded event w)

  module _ (py : Printing) (fields : List Text) (event : JobEvent) where
    abbrev pub Settled : Option ℕ → Intake → Type 0
    Settled left w = IsUntouched w × IsRecorded event w × (w.source ≡ left)
