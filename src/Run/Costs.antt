-- ===== src/Run/Costs.antt =====
-- How many writes a run needs to come to an end, and with what it may raise.
use dlpduck.Prelude.{
  ℕ, zero, suc, ◌+◌, ◌≤◌, String, ◌≡◌, refl, Bool, true, false, arith, if◌then◌else◌,
}
use dlpduck.Run.{Progress, crashed, raised, going, Run, pure, raise, gets, durable, continue, ◌>>=◌}

abbrev pub Uncut : {W A : Type 0} → (String → Type 0) → ℕ → Progress W A → Type 0
Uncut Blame j (crashed w) = ⊥
Uncut Blame j (raised e w) = Blame e
Uncut Blame j (going a n w) = j ≤ n

-- With `k` writes and more the run is not cut: it raises what `Blame` allows, or goes on with what
-- is
-- left of them.
pub record Costs {W A : Type 0} (Blame : String → Type 0) (k : ℕ) (m : Run W A) : Type 0 where
  pub at : (n j : ℕ) (w : W) → k + j ≤ n → Uncut Blame j (m n w)

module _ {W A : Type 0} {Blame : String → Type 0} where
  pub Costs-pure : (a : A) → Costs {W = W} Blame 0 (pure a)
  Costs-pure a = record { at = λ n j w h. omega arith }

  pub Costs-raise : (e : String) → Blame e → Costs {W = W} {A = A} Blame 0 (raise e)
  Costs-raise e b = record { at = λ n j w h. b }

  pub Costs-gets : (f : W → A) → Costs Blame 0 (gets f)
  Costs-gets f = record { at = λ n j w h. omega arith }

  pub Costs-weaken : {k k' : ℕ} {m : Run W A} → k ≤ k' → Costs Blame k m → Costs Blame k' m
  Costs-weaken l c = record { at = λ n j w h. c.at n j w (omega arith) }

  pub Costs-if :
      (b : Bool) {k : ℕ} (m r : Run W A)
      → (b ≡ true → Costs Blame k m)
      → (b ≡ false → Costs Blame k r)
      → Costs Blame k (if b then m else r)
  Costs-if true m r f g = f refl
  Costs-if false m r f g = g refl

pub Costs-durable : {W : Type 0} {Blame : String → Type 0} (g : W → W) → Costs Blame 1 (durable g)
Costs-durable {Blame = Blame} g = record {
  at = λ n j w. elim n as (λ i. 1 + j ≤ i → Uncut Blame j (durable g i w)) [
    | zero ↦ λ h. ground arith
    | suc i ↦ λ h. omega arith
  ];
}

module _ {W A B : Type 0} {Blame : String → Type 0} where
  Uncut-continue :
      (k j : ℕ) (p : Progress W A) (f : A → Run W B)
      → ((a : A) → Costs Blame k (f a))
      → Uncut Blame (k + j) p
      → Uncut Blame j (continue p f)
  Uncut-continue k j (crashed w) f c h = h
  Uncut-continue k j (raised e w) f c h = h
  Uncut-continue k j (going a n w) f c h = (c a).at n j w h

  pub Costs-bind :
      {k₁ k₂ : ℕ} (m : Run W A) (f : A → Run W B)
      → Costs Blame k₁ m
      → ((a : A) → Costs Blame k₂ (f a))
      → Costs Blame (k₁ + k₂) (m >>= f)
  unfolding ◌>>=◌
  Costs-bind {k₁ = k₁} {k₂ = k₂} m f c d = record {
    at = λ n j w h. Uncut-continue k₂ j (m n w) f d (c.at n (k₂ + j) w (omega arith));
  }
