-- ===== src/Content/Ids.antt =====
-- Which texts pass as job ids (dlpduck/content.py, `validate_job_id`).
use mathlib.Core.List.{append-nil}
use mathlib.Core.Path.{subst}
use dlpduck.Prelude.{
  ℕ, zero, suc, ◌≡◌, refl, ap, ◌↔◌, ◌⊎◌, inl, inr, Bool, true, [], ◌∷◌, ◌++◌, arith, length, All,
}
use dlpduck.Document.{Text, newline}
use dlpduck.Content.{at_end, is_hex, match_class, is_job_id}

abbrev pub AllHex : Text → Type 0
AllHex s = All (λ c. is_hex c ≡ true) s

at_end-cases : (s : Text) → at_end s ≡ true → (s ≡ []) ⊎ (s ≡ newline ∷ [])
at_end-cases [] h = inl refl
at_end-cases (c ∷ []) h = inr (ground arith)
at_end-cases (c ∷ d ∷ s) h = cc

match_class_sound :
    (p : ℕ → Bool) (n : ℕ) (s : Text)
    → match_class p n s ≡ true
    → (ds : Text) × (length ds ≡ n)
      × All (λ c. p c ≡ true) ds
      × ((s ≡ ds) ⊎ (s ≡ ds ++ newline ∷ []))
unfolding match_class
match_class_sound p zero s h = ([], refl, tt, at_end-cases s h)
match_class_sound p (suc n) [] h = cc
match_class_sound p (suc n) (c ∷ s) h =
    let (ds, l, all, e) = match_class_sound p n s (ground arith) in
    (
      c ∷ ds,
      ap suc l,
      (ground arith, all),
      elim e [
        | inl q ↦ inl (ap (λ (t : Text). c ∷ t) q)
        | inr q ↦ inr (ap (λ (t : Text). c ∷ t) q)
      ],
    )

match_class_complete :
    (p : ℕ → Bool) (ds rest : Text)
    → All (λ c. p c ≡ true) ds
    → at_end rest ≡ true
    → match_class p (length ds) (ds ++ rest) ≡ true
unfolding match_class
match_class_complete p [] rest a e = e
match_class_complete p (d ∷ ds) rest a e = ground (arith, match_class_complete p ds rest a.1 e)

from_digits :
    (s ds : Text)
    → length ds ≡ 32
    → AllHex ds
    → (s ≡ ds) ⊎ (s ≡ ds ++ newline ∷ [])
    → match_class is_hex 32 s ≡ true
from_digits s ds l a (inl e) =
    let whole : match_class is_hex (length ds) ds ≡ true =
      subst (λ t. match_class is_hex (length ds) t ≡ true) (append-nil ds)
        (match_class_complete is_hex ds [] a refl) in
    rw (← l, e) whole
from_digits s ds l a (inr e) = rw (← l, e) (match_class_complete is_hex ds (newline ∷ []) a refl)

-- A job id passes exactly if it is 32 lower-case hexadecimal digits, or 32 such digits and one
-- newline
-- after them.
pub is_job_id_iff :
    (s : Text)
    → (is_job_id s ≡ true)
      ↔ ((ds : Text) × (length ds ≡ 32) × AllHex ds × ((s ≡ ds) ⊎ (s ≡ ds ++ newline ∷ [])))
unfolding is_job_id
is_job_id_iff s = (match_class_sound is_hex 32 s, λ h. from_digits s h.0 h.1 h.2 h.3)
