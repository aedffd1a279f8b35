-- ===== src/Pipeline/Claim/Writes.antt =====
-- The writes of a claim, one by one (dlpduck/pipeline.py, dlpduck/operations.py).
use dlpduck.Prelude.{
  ℕ, String, ◌≡◌, refl, inl, inr, true, Option, none, some, List, [], ◌∷◌, map, arith, str_eq,
  eq_iff, ◌==◌, if◌then◌else◌, Bool-cases, any_of, any_of-append,
}
use dlpduck.Metadata.{Fields}
use dlpduck.Pipeline.Intake.{
  Receipt, Intake, unlink_source, unlink_companion, put_receipt, with_metadata,
}

-- What is left at the path once the file that was read is unlinked, where it is still that file.
abbrev pub left_of : ℕ → Option ℕ → Option ℕ
left_of opened none = none
left_of opened (some i) = if i == opened then none else some i

pub source-unlink_source :
    (opened : ℕ) (w : Intake) → (unlink_source opened w).source ≡ left_of opened w.source
unfolding unlink_source
source-unlink_source opened w = ground arith

pub stores-unlink_source : (opened : ℕ) (w : Intake) → (unlink_source opened w).stores ≡ w.stores
unfolding unlink_source
stores-unlink_source opened w = ground arith

pub receipts-unlink_source :
    (opened : ℕ) (w : Intake) → (unlink_source opened w).receipts ≡ w.receipts
unfolding unlink_source
receipts-unlink_source opened w = ground arith

pub stores-put_receipt :
    (r filename : String) (w : Intake)
    → ((put_receipt r filename w).stores ≡ w.stores)
      × ((put_receipt r filename w).source ≡ w.source)
unfolding put_receipt
stores-put_receipt r filename w = ground arith

pub has-put_receipt :
    (r filename : String) (w : Intake)
    → any_of (λ (x : Receipt). str_eq x.id r) (put_receipt r filename w).receipts ≡ true
unfolding put_receipt
has-put_receipt r filename w =
    elim (Bool-cases (any_of (λ (x : Receipt). str_eq x.id r) w.receipts)) [
      | inl e ↦ rw e e
      | inr e ↦ rw e (
          ground (
            arith,
            eq_iff r r,
            any_of-append (λ (x : Receipt). str_eq x.id r) w.receipts
                (record { id = r; filename = filename; metadata = [] } ∷ []),
          ))
    ]

pub has-receipt_metadata :
    (r : String) (metadata : Fields) (xs : List Receipt)
    → any_of (λ (x : Receipt). str_eq x.id r) (map (with_metadata r metadata) xs)
      ≡ any_of (λ (x : Receipt). str_eq x.id r) xs
has-receipt_metadata r metadata [] = refl
has-receipt_metadata r metadata (x ∷ xs) = ground (arith, has-receipt_metadata r metadata xs)

pub companion-unlink_companion :
    (opened : ℕ) (w : Intake)
    → ((unlink_companion opened w).stores ≡ w.stores)
      × ((unlink_companion opened w).source ≡ w.source)
      × ((unlink_companion opened w).receipts ≡ w.receipts)
unfolding unlink_companion
companion-unlink_companion opened w = ground arith
