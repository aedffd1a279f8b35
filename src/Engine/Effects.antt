-- ===== src/Engine/Effects.antt =====
-- Computations that read the clock and call the `regex` package. Each such event has its number, so
-- that the same call may end otherwise at another time; an exception ends the computation.
use mathlib.Core.Path.{subst}
use dlpduck.Prelude.{
  ℕ, suc, ◌≡◌, refl, ◌⊎◌, inl, inr, Bool, true, false, Option, none, some, List, arith,
  if◌then◌else◌,
}
use dlpduck.Document.{Text}

pub data Fault : Type 0 where
  timeout index_error : Fault

pub data Result (A : Type 0) : Type 0 where
  ok : A → Result A
  err : Fault → Result A

pub Result-cases :
    {A : Type 0} (r : Result A) → ((a : A) × (r ≡ ok a)) ⊎ (r ≡ err timeout) ⊎ (r ≡ err index_error)
Result-cases (ok a) = inl (a, refl)
Result-cases (err timeout) = inr (inl refl)
Result-cases (err index_error) = inr (inr refl)

-- The span of a match: m.start() and m.end().
abbrev pub Span : Type 0
Span = ℕ × ℕ

pub record Regex : Type 1 where
  pub Pattern : Type 0
  -- list(p.finditer(text, timeout=...)); `none` is a TimeoutError
  pub finditer : Pattern → Text → Option ℕ → ℕ → Option (List Span)
  -- bool(p.search(text, timeout=...))
  pub search : Pattern → Text → Option ℕ → ℕ → Option Bool
  -- time.monotonic(), in the budget's unit
  pub now : ℕ → ℕ

abbrev pub Scan : Type 0 → Type 0
Scan A = ℕ → Result (A × ℕ)

abbrev pub pure : {A : Type 0} → A → Scan A
pure a t = ok (a, t)

abbrev pub raise : {A : Type 0} → Fault → Scan A
raise e t = err e

abbrev pub continue : {A B : Type 0} → Result (A × ℕ) → (A → Scan B) → Result (B × ℕ)
continue (ok (a, t)) f = f a t
continue (err e) f = err e

infixl 5 ◌>>=◌
unfoldable pub ◌>>=◌ : {A B : Type 0} → Scan A → (A → Scan B) → Scan B
◌>>=◌ m f t = continue (m t) f

-- One event, `none` a TimeoutError.
abbrev pub timed : {A : Type 0} → (ℕ → Option A) → Scan A
timed call t = elim (call t) [ none ↦ err timeout | some a ↦ ok (a, suc t) ]

abbrev pub or_index_error : {A : Type 0} → Option A → Scan A
or_index_error none = raise index_error
or_index_error (some a) = pure a

-- If the computation returns, it returns `a`.
abbrev pub Gives : {A : Type 0} → Scan A → A → Type 0
Gives {A} m a = (t : ℕ) (b : A) (t' : ℕ) → m t ≡ ok (b, t') → b ≡ a

pub Gives-pure : {A : Type 0} (a : A) → Gives (pure a) a
Gives-pure a t b t' h = cc

pub Gives-eq : {A : Type 0} (m : Scan A) {a b : A} → a ≡ b → Gives m a → Gives m b
Gives-eq m p h = subst (λ x. Gives m x) p h

pub Gives-raise : {A : Type 0} (e : Fault) (a : A) → Gives (raise e) a
Gives-raise e a t b t' h = cc

pub Gives-timed :
    {A : Type 0} (call : ℕ → Option A) (a : A)
    → ((t : ℕ) (b : A) → call t ≡ some b → b ≡ a)
    → Gives (timed call) a
Gives-timed call a right t b t' h = ground (arith, right t b)

pub continue-eq-ok :
    {A B : Type 0} (r : Result (A × ℕ)) (f : A → Scan B) {b : B} {t' : ℕ}
    → continue r f ≡ ok (b, t')
    → (a : A) × (t : ℕ) × (r ≡ ok (a, t)) × (f a t ≡ ok (b, t'))
continue-eq-ok (ok (a, t)) f h = (a, t, refl, h)
continue-eq-ok (err e) f h = cc

pub Gives-bind :
    {A B : Type 0} (m : Scan A) (f : A → Scan B) (a : A) (b : B)
    → Gives m a
    → Gives (f a) b
    → Gives (m >>= f) b
unfolding ◌>>=◌
Gives-bind m f a b hm hf t c t' h =
    let (a', t1, e, q) = continue-eq-ok (m t) f h in
    hf t1 c t' (subst (λ x. f x t1 ≡ ok (c, t')) (hm t a' t1 e) q)

pub Gives-if :
    {A : Type 0} (test : Bool) (m n : Scan A) (a b : A)
    → Gives m a
    → Gives n b
    → Gives (if test then m else n) (if test then a else b)
Gives-if true m n a b hm hn = hm
Gives-if false m n a b hm hn = hn
