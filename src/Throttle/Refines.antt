-- ===== src/Throttle/Refines.antt =====
-- The throttle over a sequence of calls, against counting (dlpduck/console/auth.py).
use dlpduck.Prelude.{
  ℕ, ◌≤◌, String, ◌≡◌, refl, ◌∙◌, inl, inr, Bool, not, ◌&&◌, List, [], ◌∷◌, arith, str_eq, ltb, leb,
  if◌then◌else◌, Bool-cases, length, keep_if, any_of,
}
use dlpduck.Throttle.{
  Failures, max_tracked, window, pop_window, is_blank, drop_expired, recent, is_locked, record_each,
  record_failure, record_success,
}
use dlpduck.Throttle.History.{
  History, failed_once, is_recent, Tracks, Tracks-later, recent-Tracks, window-recent,
  append-Tracks, pop_window-Tracks, forget_expired-Tracks,
}

-- The throttle's methods, each with the keys and the reading of the clock that it makes.
pub data Call : Type 0 where
  asked : List String → ℕ → Call
  failed : List String → ℕ → Call
  succeeded : List String → Call

abbrev called_at : Call → ℕ → ℕ
called_at (asked ks now) last = now
called_at (failed ks now) last = now
called_at (succeeded ks) last = last

-- The readings of the clock never go back.
abbrev pub IsOrdered : ℕ → List Call → Type 0
IsOrdered last [] = Unit
IsOrdered last (c ∷ cs) = (last ≤ called_at c last) × IsOrdered (called_at c last) cs

abbrev all_failed : List String → ℕ → History → History
all_failed [] now h = h
all_failed (k ∷ ks) now h = all_failed ks now (if is_blank k then h else failed_once k now h)

abbrev all_cleared : List String → History → History
all_cleared [] h = h
all_cleared (k ∷ ks) h = all_cleared ks (λ j. if str_eq k j then [] else h j)

module _ (max_failures lockout_seconds : ℕ) where
  -- The answers that the throttle gives.
  abbrev pub answers : List Call → Failures → List Bool
  answers [] m = []
  answers (asked ks now ∷ cs) m =
      let (locked, m') = is_locked max_failures lockout_seconds ks now m in locked ∷ answers cs m'
  answers (failed ks now ∷ cs) m = answers cs (record_failure max_failures lockout_seconds ks now m)
  answers (succeeded ks ∷ cs) m = answers cs (record_success ks m)

  -- A key that is not blank has at least max_failures failures in the last lockout_seconds, all
  -- after its last success.
  abbrev pub must_lock : List String → ℕ → History → Bool
  must_lock ks now h =
      any_of
        (λ (k : String).
          not (is_blank k)
          && leb max_failures (length (keep_if (is_recent max_failures lockout_seconds now) (h k))))
        ks

  abbrev pub required_answers : List Call → History → List Bool
  required_answers [] h = []
  required_answers (asked ks now ∷ cs) h = must_lock ks now h ∷ required_answers cs h
  required_answers (failed ks now ∷ cs) h = required_answers cs (all_failed ks now h)
  required_answers (succeeded ks ∷ cs) h = required_answers cs (all_cleared ks h)

  record_each-Tracks :
      (ks : List String) (now : ℕ) (m : Failures) (h : History)
      → Tracks max_failures lockout_seconds now m h
      → Tracks max_failures lockout_seconds now
          (record_each max_failures lockout_seconds ks now m)
          (all_failed ks now h)
  unfolding record_each
  record_each-Tracks [] now m h t = t
  record_each-Tracks (k ∷ ks) now m h t = elim (Bool-cases (is_blank k)) [
    | inl e ↦ rw e (record_each-Tracks ks now m h t)
    | inr e ↦ rw e (
        record_each-Tracks ks now _ (failed_once k now h)
          (append-Tracks max_failures lockout_seconds now k m h t))
  ]

  record_failure-Tracks :
      (ks : List String) (now : ℕ) (m : Failures) (h : History)
      → Tracks max_failures lockout_seconds now m h
      → Tracks max_failures lockout_seconds now
          (record_failure max_failures lockout_seconds ks now m)
          (all_failed ks now h)
  unfolding record_failure
  record_failure-Tracks ks now m h t =
      let each = record_each-Tracks ks now m h t in
      elim (Bool-cases
        (ltb max_tracked (length (record_each max_failures lockout_seconds ks now m)))) [
          | inl e ↦
              rw e (
                forget_expired-Tracks max_failures lockout_seconds now _ (all_failed ks now h) each)
          | inr e ↦ rw e each
        ]

  record_success-Tracks :
      (ks : List String) (last : ℕ) (m : Failures) (h : History)
      → Tracks max_failures lockout_seconds last m h
      → Tracks max_failures lockout_seconds last (record_success ks m) (all_cleared ks h)
  unfolding record_success
  record_success-Tracks [] last m h t = t
  record_success-Tracks (k ∷ ks) last m h t =
      record_success-Tracks ks last (pop_window k m) (λ j. if str_eq k j then [] else h j)
        (pop_window-Tracks max_failures lockout_seconds last k m h t)

  is_locked-Tracks :
      (ks : List String) (now : ℕ) (m : Failures) (h : History)
      → Tracks max_failures lockout_seconds now m h
      → ((is_locked max_failures lockout_seconds ks now m).0 ≡ must_lock ks now h)
        × Tracks max_failures lockout_seconds now
            (is_locked max_failures lockout_seconds ks now m).1
            h
  unfolding is_locked
  is_locked-Tracks [] now m h t = (refl, t)
  is_locked-Tracks (k ∷ ks) now m h t =
      let trim = recent-Tracks max_failures lockout_seconds now k m h t in
      let seen = window-recent max_failures lockout_seconds now k m ∙ t.2 k now (omega arith) in
      elim (Bool-cases (is_blank k)) [
        | inl e ↦ rw e (is_locked-Tracks ks now m h t)
        | inr e ↦
            elim (Bool-cases (
              leb max_failures
                (length (keep_if (is_recent max_failures lockout_seconds now) (h k))))) [
                  | inl full ↦ rw (e, seen, full) (refl, trim)
                  | inr room ↦
                      rw (e, seen, room)
                        (is_locked-Tracks ks now (recent max_failures lockout_seconds k now m) h
                          trim)
                ]
      ]

  answers-Tracks :
      (cs : List Call) (last : ℕ) (m : Failures) (h : History)
      → IsOrdered last cs
      → Tracks max_failures lockout_seconds last m h
      → answers cs m ≡ required_answers cs h
  answers-Tracks [] last m h o t = refl
  answers-Tracks (asked ks now ∷ cs) last m h o t =
      let step =
        is_locked-Tracks ks now m h
          (Tracks-later max_failures lockout_seconds last now m h o.0 t) in
      rw
        (
          step.0,
          answers-Tracks cs now (is_locked max_failures lockout_seconds ks now m).1 h o.1 step.1,
        )
        refl
  answers-Tracks (failed ks now ∷ cs) last m h o t =
      answers-Tracks cs now (record_failure max_failures lockout_seconds ks now m)
        (all_failed ks now h) o.1
        (record_failure-Tracks ks now m h
          (Tracks-later max_failures lockout_seconds last now m h o.0 t))
  answers-Tracks (succeeded ks ∷ cs) last m h o t =
      answers-Tracks cs last (record_success ks m) (all_cleared ks h) o.1
        (record_success-Tracks ks last m h t)

  -- Over any sequence of calls whose readings of the clock never go back, from an empty table,
  -- `is_locked` answers each time whether some given key that is not blank has had at least
  -- `max_failures` recorded failures in the last `lockout_seconds` since its last success. The
  -- trimming of windows as they are read, and the forgetting of keys when the table is full, change
  -- no answer.
  pub throttle_refines_counting :
      (cs : List Call) → IsOrdered 0 cs → answers cs [] ≡ required_answers cs (λ k. [])
  unfolding window drop_expired
  throttle_refines_counting cs o =
      answers-Tracks cs 0 [] (λ k. []) o (tt, λ k. tt, λ k now le. refl)
