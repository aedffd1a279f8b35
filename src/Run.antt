-- ===== src/Run.antt =====
-- Code that writes to durable stores and may stop between two writes: a run is given the number of
-- writes after which the process dies. What was written before a crash or an exception stays.
pub mod Does
pub mod Costs
use dlpduck.Prelude.{ℕ, zero, suc, String}

pub data Progress (W A : Type 0) : Type 0 where
  crashed : W → Progress W A
  raised : String → W → Progress W A
  going : A → ℕ → W → Progress W A

abbrev pub Run : Type 0 → Type 0 → Type 0
Run W A = ℕ → W → Progress W A

module _ {W A : Type 0} where
  abbrev pub pure : A → Run W A
  pure a n w = going a n w

  abbrev pub raise : String → Run W A
  raise e n w = raised e w

  -- What the stores hold; reading them is not a write.
  abbrev pub gets : (W → A) → Run W A
  gets f n w = going (f w) n w

-- One atomic write.
abbrev pub durable : {W : Type 0} → (W → W) → Run W Unit
durable f zero w = crashed w
durable f (suc n) w = going tt n (f w)

abbrev pub continue : {W A B : Type 0} → Progress W A → (A → Run W B) → Progress W B
continue (crashed w) f = crashed w
continue (raised e w) f = raised e w
continue (going a n w) f = f a n w

infixl 5 ◌>>=◌ ◌>>◌
unfoldable pub ◌>>=◌ : {W A B : Type 0} → Run W A → (A → Run W B) → Run W B
◌>>=◌ m f n w = continue (m n w) f

abbrev pub ◌>>◌ : {W A B : Type 0} → Run W A → Run W B → Run W B
m >> r = m >>= λ _. r

-- try: m, then f with its value; except: g with what it raised.
abbrev pub handle :
    {W A B : Type 0} → Progress W A → (A → Run W B) → (String → Run W B) → ℕ → Progress W B
handle (crashed w) f g n = crashed w
handle (raised e w) f g n = g e n w
handle (going a n' w) f g n = f a n' w
