-- ===== src/Throttle/History.antt =====
-- The table of windows against the failures of each key since its last success
-- (dlpduck/console/auth.py).
use dlpduck.Prelude.{
  ℕ, ◌≤◌, String, ◌≡◌, refl, ap, ◌∙◌, inl, inr, Bool, true, false, not, List, [], ◌∷◌, ◌++◌, arith,
  str_eq, eq_iff, if◌then◌else◌, Bool-cases, keep_if, any_of, All, All-append,
}
use dlpduck.Throttle.{
  Failures, window, put_window, pop_window, is_expired, drop_expired, recent, forget_expired,
}
use dlpduck.Throttle.Windows.{
  window-put_window, IsOnce, window-missing, put_window-IsOnce, pop_window-IsOnce,
  window-pop_window,
}

-- The failures of each key, oldest first.
abbrev pub History : Type 0
History = String → List ℕ

-- One more failure of the key.
abbrev pub failed_once : String → ℕ → History → History
failed_once k now h = λ j. if str_eq k j then h k ++ now ∷ [] else h j

module _ (max_failures lockout_seconds : ℕ) where
  abbrev pub is_recent : ℕ → ℕ → Bool
  is_recent now t = not (is_expired max_failures lockout_seconds now t)

  abbrev pub AllBefore : ℕ → List ℕ → Type 0
  AllBefore last ts = All (λ (t : ℕ). t ≤ last) ts

  -- At any later time, trimming a window leaves the recent failures of its key.
  abbrev pub Tracks : ℕ → Failures → History → Type 0
  Tracks last m h =
      (IsOnce m
        × ((k : String) → AllBefore last (window k m))
        × ((k : String) (now : ℕ)
            → last ≤ now
            → drop_expired max_failures lockout_seconds now (window k m)
              ≡ keep_if (is_recent now) (h k)))

  drop_expired-twice :
      (earlier now : ℕ) (ts : List ℕ)
      → earlier ≤ now
      → drop_expired max_failures lockout_seconds now
          (drop_expired max_failures lockout_seconds earlier ts)
        ≡ drop_expired max_failures lockout_seconds now ts
  unfolding drop_expired
  drop_expired-twice earlier now [] le = refl
  drop_expired-twice earlier now (t ∷ ts) le = ground (arith, drop_expired-twice earlier now ts le)

  drop_expired-before :
      (last now : ℕ) (ts : List ℕ)
      → AllBefore last ts
      → AllBefore last (drop_expired max_failures lockout_seconds now ts)
  unfolding drop_expired
  drop_expired-before last now [] h = tt
  drop_expired-before last now (t ∷ ts) h = ground (arith, drop_expired-before last now ts h.1)

  drop_expired-all :
      (last now : ℕ) (ts : List ℕ)
      → AllBefore last ts
      → is_expired max_failures lockout_seconds now last ≡ true
      → drop_expired max_failures lockout_seconds now ts ≡ []
  unfolding drop_expired
  drop_expired-all last now [] h e = refl
  drop_expired-all last now (t ∷ ts) h e = ground (arith, drop_expired-all last now ts h.1 e)

  drop_expired-snoc :
      (last now : ℕ) (ts : List ℕ)
      → is_expired max_failures lockout_seconds now last ≡ false
      → drop_expired max_failures lockout_seconds now (ts ++ last ∷ [])
        ≡ drop_expired max_failures lockout_seconds now ts ++ last ∷ []
  unfolding drop_expired
  drop_expired-snoc last now [] e = rw e refl
  drop_expired-snoc last now (t ∷ ts) e = ground (arith, drop_expired-snoc last now ts e)

  keep_if-snoc :
      (now t : ℕ) (ts : List ℕ)
      → keep_if (is_recent now) (ts ++ t ∷ []) ≡ (
          if is_recent now t
          then keep_if (is_recent now) ts ++ t ∷ []
          else keep_if (is_recent now) ts)
  keep_if-snoc now t [] = ground arith
  keep_if-snoc now t (u ∷ ts) = ground (arith, keep_if-snoc now t ts)

  pub before-later :
      (last now : ℕ) (ts : List ℕ) → last ≤ now → AllBefore last ts → AllBefore now ts
  before-later last now [] le h = tt
  before-later last now (t ∷ ts) le h = (omega (arith, h.0), before-later last now ts le h.1)

  drop_expired-appended :
      (last now : ℕ) (ts us : List ℕ)
      → AllBefore last ts
      → drop_expired max_failures lockout_seconds now ts ≡ keep_if (is_recent now) us
      → drop_expired max_failures lockout_seconds now (ts ++ last ∷ [])
        ≡ keep_if (is_recent now) (us ++ last ∷ [])
  drop_expired-appended last now ts us h e =
      elim (Bool-cases (is_expired max_failures lockout_seconds now last)) [
        | inl old ↦ ground (
          arith,
          keep_if-snoc now last us,
          drop_expired-all last now ts h old,
          drop_expired-all last now (ts ++ last ∷ [])
              (All-append (λ (t : ℕ). t ≤ last) ts (last ∷ []) h (omega arith, tt)) old,
        )
        | inr new ↦ ground (arith, keep_if-snoc now last us, drop_expired-snoc last now ts new)
      ]

  pub Tracks-later :
      (last now : ℕ) (m : Failures) (h : History) → last ≤ now → Tracks last m h → Tracks now m h
  Tracks-later last now m h le t = (
    t.0,
    λ k. before-later last now (window k m) le (t.1 k),
    λ k later le'. t.2 k later (omega (arith, le, le')),
  )

  -- A window may be replaced by one that the history of its key agrees with.
  Tracks-put_window :
      (last : ℕ) (k : String) (ts us : List ℕ) (m : Failures) (h : History)
      → Tracks last m h
      → AllBefore last ts
      → ((now : ℕ)
          → last ≤ now
          → drop_expired max_failures lockout_seconds now ts ≡ keep_if (is_recent now) us)
      → Tracks last (put_window k ts m) (λ j. if str_eq k j then us else h j)
  Tracks-put_window last k ts us m h t before agree = (
    put_window-IsOnce k ts m t.0,
    λ j. elim (Bool-cases (str_eq k j)) [
      | inl e ↦ rw (window-put_window j k ts m, e) before
      | inr e ↦ rw (window-put_window j k ts m, e) (t.1 j)
    ],
    λ j now le. elim (Bool-cases (str_eq k j)) [
      | inl e ↦ rw (window-put_window j k ts m, e) (agree now le)
      | inr e ↦ rw (window-put_window j k ts m, e) (t.2 j now le)
    ],
  )

  same_history :
      (last : ℕ) (m : Failures) (h g : History)
      → ((j : String) → h j ≡ g j)
      → Tracks last m h
      → Tracks last m g
  same_history last m h g e t =
      (t.0, t.1, λ k now le. t.2 k now le ∙ ap (keep_if (is_recent now)) (e k))

  pub recent-Tracks :
      (now : ℕ) (k : String) (m : Failures) (h : History)
      → Tracks now m h
      → Tracks now (recent max_failures lockout_seconds k now m) h
  unfolding recent
  recent-Tracks now k m h t =
      same_history now _ (λ j. if str_eq k j then h k else h j) h (λ j. ground (arith, eq_iff k j))
        (Tracks-put_window now k (drop_expired max_failures lockout_seconds now (window k m)) (h k)
          m h t (drop_expired-before now now (window k m) (t.1 k))
          (λ later le. drop_expired-twice now later (window k m) le ∙ t.2 k later le))

  pub window-recent :
      (now : ℕ) (k : String) (m : Failures)
      → window k (recent max_failures lockout_seconds k now m)
        ≡ drop_expired max_failures lockout_seconds now (window k m)
  unfolding recent
  window-recent now k m = ground (
    arith,
    eq_iff k k,
    window-put_window k k (drop_expired max_failures lockout_seconds now (window k m)) m,
  )

  pub append-Tracks :
      (now : ℕ) (k : String) (m : Failures) (h : History)
      → Tracks now m h
      → Tracks now
          (put_window k (window k (recent max_failures lockout_seconds k now m) ++ now ∷ []) m)
          (failed_once k now h)
  append-Tracks now k m h t =
      let kept = recent-Tracks now k m h t in
      Tracks-put_window now k _ (h k ++ now ∷ []) m h t
        (All-append (λ (u : ℕ). u ≤ now) (window k (recent max_failures lockout_seconds k now m))
          (now ∷ []) (kept.1 k) (omega arith, tt))
        (λ later le.
          drop_expired-appended now later (window k (recent max_failures lockout_seconds k now m))
            (h k) (kept.1 k) (kept.2 k later le))

  pub pop_window-Tracks :
      (last : ℕ) (k : String) (m : Failures) (h : History)
      → Tracks last m h
      → Tracks last (pop_window k m) (λ j. if str_eq k j then [] else h j)
  unfolding drop_expired
  pop_window-Tracks last k m h t = (
    pop_window-IsOnce k m t.0,
    λ j. elim (Bool-cases (str_eq k j)) [
      | inl e ↦ rw (window-pop_window j k m t.0, e) tt
      | inr e ↦ rw (window-pop_window j k m t.0, e) (t.1 j)
    ],
    λ j now le. elim (Bool-cases (str_eq k j)) [
      | inl e ↦ rw (window-pop_window j k m t.0, e) refl
      | inr e ↦ rw (window-pop_window j k m t.0, e) (t.2 j now le)
    ],
  )

  any_of-forget_expired :
      (i : String) (now : ℕ) (m : Failures)
      → any_of (λ (e : String × List ℕ). str_eq e.0 i) m ≡ false
      → any_of
          (λ (e : String × List ℕ). str_eq e.0 i)
          (forget_expired max_failures lockout_seconds now m)
        ≡ false
  unfolding forget_expired
  any_of-forget_expired i now [] h = refl
  any_of-forget_expired i now ((j, ts) ∷ m) h = ground (arith, any_of-forget_expired i now m)

  forget_expired-IsOnce :
      (now : ℕ) (m : Failures)
      → IsOnce m
      → IsOnce (forget_expired max_failures lockout_seconds now m)
  unfolding forget_expired
  forget_expired-IsOnce now [] h = tt
  forget_expired-IsOnce now ((j, ts) ∷ m) h =
      ground (arith, any_of-forget_expired j now m h.0, forget_expired-IsOnce now m h.1)

  window-forget_expired :
      (k : String) (now : ℕ) (m : Failures)
      → IsOnce m
      → window k (forget_expired max_failures lockout_seconds now m)
        ≡ drop_expired max_failures lockout_seconds now (window k m)
  unfolding forget_expired window drop_expired
  window-forget_expired k now [] h = refl
  window-forget_expired k now ((j, ts) ∷ m) h = ground (
    arith,
    eq_iff j k,
    window-missing j (forget_expired max_failures lockout_seconds now m)
        (any_of-forget_expired j now m h.0),
    window-forget_expired k now m h.1,
  )

  pub forget_expired-Tracks :
      (now : ℕ) (m : Failures) (h : History)
      → Tracks now m h
      → Tracks now (forget_expired max_failures lockout_seconds now m) h
  forget_expired-Tracks now m h t = (
    forget_expired-IsOnce now m t.0,
    λ k. rw (window-forget_expired k now m t.0) (drop_expired-before now now (window k m) (t.1 k)),
    λ k later le.
        rw (window-forget_expired k now m t.0)
          (drop_expired-twice now later (window k m) le ∙ t.2 k later le),
  )
