-- ===== src/Run/Does.antt =====
-- What a run does, wherever it is cut: `Keep` holds of the stores where it crashes or raises, and
-- `Post` where it returns.
use dlpduck.Prelude.{ℕ, zero, suc, String, ◌≡◌, refl, Bool, true, false, if◌then◌else◌}
use dlpduck.Run.{
  Progress, crashed, raised, going, Run, pure, raise, gets, durable, continue, ◌>>=◌, handle,
}

abbrev pub Ended : {W A : Type 0} → (W → Type 0) → (A → W → Type 0) → Progress W A → Type 0
Ended Keep Post (crashed w) = Keep w
Ended Keep Post (raised e w) = Keep w
Ended Keep Post (going a n w) = Post a w

pub record Does {W A : Type 0} (Keep Pre : W → Type 0) (m : Run W A) (Post : A → W → Type 0)
    : Type 0 where
  pub at : (n : ℕ) (w : W) → Pre w → Ended Keep Post (m n w)

module _ {W A : Type 0} {Keep Pre : W → Type 0} {Post : A → W → Type 0} where
  pub Does-pure : (a : A) → ((w : W) → Pre w → Post a w) → Does Keep Pre (pure a) Post
  Does-pure a f = record { at = λ n w h. f w h }

  pub Does-raise : (e : String) → ((w : W) → Pre w → Keep w) → Does Keep Pre (raise e) Post
  Does-raise e f = record { at = λ n w h. f w h }

  pub Does-gets : (g : W → A) → ((w : W) → Pre w → Post (g w) w) → Does Keep Pre (gets g) Post
  Does-gets g f = record { at = λ n w h. f w h }

  pub Does-if :
      (b : Bool) (m r : Run W A)
      → (b ≡ true → Does Keep Pre m Post)
      → (b ≡ false → Does Keep Pre r Post)
      → Does Keep Pre (if b then m else r) Post
  Does-if true m r km kr = km refl
  Does-if false m r km kr = kr refl

pub Does-durable :
    {W : Type 0} {Keep Pre : W → Type 0} {Post : Unit → W → Type 0} (g : W → W)
    → ((w : W) → Pre w → Keep w)
    → ((w : W) → Pre w → Post tt (g w))
    → Does Keep Pre (durable g) Post
Does-durable {Keep = Keep} {Post = Post} g k f = record {
  at = λ n w h. elim n as (λ j. Ended Keep Post (durable g j w)) [ zero ↦ k w h | suc j ↦ f w h ];
}

module _ {W A B : Type 0} {Keep : W → Type 0} {Mid : A → W → Type 0} {Post : B → W → Type 0} where
  Ended-continue :
      (p : Progress W A) (f : A → Run W B)
      → ((a : A) → Does Keep (Mid a) (f a) Post)
      → Ended Keep Mid p
      → Ended Keep Post (continue p f)
  Ended-continue (crashed w) f k h = h
  Ended-continue (raised e w) f k h = h
  Ended-continue (going a n w) f k h = (k a).at n w h

  pub Does-bind :
      {Pre : W → Type 0} (m : Run W A) (f : A → Run W B)
      → Does Keep Pre m Mid
      → ((a : A) → Does Keep (Mid a) (f a) Post)
      → Does Keep Pre (m >>= f) Post
  unfolding ◌>>=◌
  Does-bind m f km kf = record { at = λ n w h. Ended-continue (m n w) f kf (km.at n w h) }

-- An exception is handled from what was written before it.
pub Ended-handle :
    {W A B : Type 0} {Keep : W → Type 0} {Mid : A → W → Type 0} {Post : B → W → Type 0}
    (p : Progress W A) (f : A → Run W B) (g : String → Run W B) (n : ℕ)
    → ((a : A) → Does Keep (Mid a) (f a) Post)
    → ((e : String) → Does Keep Keep (g e) Post)
    → Ended Keep Mid p
    → Ended Keep Post (handle p f g n)
Ended-handle (crashed w) f g n kf kg h = h
Ended-handle (raised e w) f g n kf kg h = (kg e).at n w h
Ended-handle (going a j w) f g n kf kg h = (kf a).at j w h

pub Does-weaken :
    {W A : Type 0} {Keep Pre Pre' : W → Type 0} {m : Run W A} {Post : A → W → Type 0}
    → ((w : W) → Pre' w → Pre w)
    → Does Keep Pre m Post
    → Does Keep Pre' m Post
Does-weaken f k = record { at = λ n w h. k.at n w (f w h) }

-- A condition that does not depend on the stores may be used for the run.
pub Does-given :
    {W A : Type 0} {Keep Pre : W → Type 0} {m : Run W A} {Post : A → W → Type 0} {Given : Type 0}
    → (Given → Does Keep Pre m Post)
    → Does Keep (λ w. Pre w × Given) m Post
Does-given k = record { at = λ n w h. (k h.1).at n w h.0 }

pub Ended-map :
    {W A : Type 0} {Keep Keep' : W → Type 0} (Post : A → W → Type 0) (p : Progress W A)
    → ((w : W) → Keep w → Keep' w)
    → Ended Keep Post p
    → Ended Keep' Post p
Ended-map Post (crashed w) f h = f w h
Ended-map Post (raised e w) f h = f w h
Ended-map Post (going a n w) f h = h

pub Ended-weaken :
    {W A : Type 0} {Keep Keep' : W → Type 0} {Post Post' : A → W → Type 0}
    → ((w : W) → Keep w → Keep' w)
    → ((a : A) (w : W) → Post a w → Post' a w)
    → (p : Progress W A) → Ended Keep Post p
    → Ended Keep' Post' p
Ended-weaken f g (crashed w) h = f w h
Ended-weaken f g (raised e w) h = f w h
Ended-weaken f g (going a n w) h = g a w h

pub Does-map :
    {W A : Type 0} {Keep Keep' Pre : W → Type 0} {m : Run W A} {Post Post' : A → W → Type 0}
    → ((w : W) → Keep w → Keep' w)
    → ((a : A) (w : W) → Post a w → Post' a w)
    → Does Keep Pre m Post
    → Does Keep' Pre m Post'
Does-map {m = m} f g k = record { at = λ n w h. Ended-weaken f g (m n w) (k.at n w h) }
