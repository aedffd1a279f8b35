-- ===== src/Pipeline/Commit/Steps.antt =====
-- The steps of a manifest, and events counted (dlpduck/pipeline.py, `commit`).
use mathlib.Core.Path.{subst}
use dlpduck.Prelude.{
  ℕ, zero, suc, ◌+◌, ◌≤◌, ◌≡◌, refl, sym, ap, ◌∙◌, inl, inr, Bool, true, false, ◌||◌, List, [], ◌∷◌,
  ◌++◌, arith, if◌then◌else◌, Bool-cases, any_of,
}
use dlpduck.Pipeline.State.{
  Step, assessed, pdf, audit_started, audit, stores, emit_started, emitted, step_number, step_eq,
  has_step, Manifest,
}
use dlpduck.Pipeline.Commit.{with_step}

unfoldable pub count_if {ℓ} : {A : Type ℓ} → (A → Bool) → List A → ℕ
count_if p [] = 0
count_if p (x ∷ xs) = if p x then suc (count_if p xs) else count_if p xs

pub count_if-snoc {ℓ} :
    {A : Type ℓ} (p : A → Bool) (xs : List A) (x : A)
    → count_if p (xs ++ x ∷ []) ≡ count_if p xs + (if p x then 1 else 0)
unfolding count_if
count_if-snoc p [] x = ground arith
count_if-snoc p (y ∷ xs) x = ground (arith, count_if-snoc p xs x)

pub count_if-none {ℓ} :
    {A : Type ℓ} (p : A → Bool) (xs : List A) → any_of p xs ≡ false → count_if p xs ≡ 0
unfolding count_if
count_if-none p [] h = refl
count_if-none p (x ∷ xs) h = ground (arith, count_if-none p xs)

pub count_if-some {ℓ} :
    {A : Type ℓ} (p : A → Bool) (xs : List A) → any_of p xs ≡ true → 1 ≤ count_if p xs
unfolding count_if
count_if-some p [] h = cc
count_if-some p (x ∷ xs) h = ground (arith, count_if-some p xs)

pub has_step-snoc :
    (s t : Step) (ts : List Step) → has_step s (ts ++ t ∷ []) ≡ has_step s ts || step_eq s t
unfolding has_step
has_step-snoc s t [] = ground arith
has_step-snoc s t (u ∷ ts) = ground (arith, has_step-snoc s t ts)

pub number_step : ℕ → Step
number_step zero = assessed
number_step (suc zero) = pdf
number_step (suc (suc zero)) = audit_started
number_step (suc (suc (suc zero))) = audit
number_step (suc (suc (suc (suc zero)))) = stores
number_step (suc (suc (suc (suc (suc zero))))) = emit_started
number_step (suc (suc (suc (suc (suc (suc n)))))) = emitted

pub number_step-step_number : (s : Step) → number_step (step_number s) ≡ s
unfolding step_number number_step
number_step-step_number assessed = refl
number_step-step_number pdf = refl
number_step-step_number audit_started = refl
number_step-step_number audit = refl
number_step-step_number stores = refl
number_step-step_number emit_started = refl
number_step-step_number emitted = refl

pub step_eq-same : (s t : Step) → step_eq s t ≡ true → s ≡ t
unfolding step_eq
step_eq-same s t h =
    let e : step_number s ≡ step_number t = ground arith in
    sym (number_step-step_number s) ∙ ap number_step e ∙ number_step-step_number t

-- What recording a step changes in the manifest.
pub has_step-with_step :
    (t s : Step) (m : Manifest)
    → has_step t (with_step s m).steps ≡ has_step t m.steps || step_eq t s
unfolding with_step
has_step-with_step t s m = elim (Bool-cases (has_step s m.steps)) [
  | inl e ↦ elim (Bool-cases (step_eq t s)) [
    | inl q ↦
        rw (e, q)
          (ground (arith, subst (λ u. has_step u m.steps ≡ true) (sym (step_eq-same t s q)) e))
    | inr q ↦ rw (e, q) (ground arith)
  ]
  | inr e ↦ rw e (has_step-snoc t s m.steps)
]

pub without_step :
    (t s : Step) (m : Manifest)
    → has_step t (with_step s m).steps ≡ false
    → has_step t m.steps ≡ false
without_step t s m h = ground (arith, has_step-with_step t s m)

pub with_step-kept :
    (t s : Step) (m : Manifest)
    → has_step t m.steps ≡ true
    → has_step t (with_step s m).steps ≡ true
with_step-kept t s m h = ground (arith, has_step-with_step t s m)

pub with_step-has : (s : Step) (m : Manifest) → has_step s (with_step s m).steps ≡ true
unfolding step_eq
with_step-has s m = ground (arith, has_step-with_step s s m)

pub with_step-named :
    (s : Step) (m : Manifest)
    → ((with_step s m).receipt_id ≡ m.receipt_id) × ((with_step s m).received_at ≡ m.received_at)
unfolding with_step
with_step-named s m = elim (Bool-cases (has_step s m.steps)) [
  | inl e ↦ rw e (refl, refl)
  | inr e ↦ rw e (refl, refl)
]
