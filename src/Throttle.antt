-- ===== src/Throttle.antt =====
-- `LoginThrottle` (dlpduck/console/auth.py), under its lock. A time is a number on the monotonic
-- clock.
pub mod Windows
pub mod History
pub mod Refines
use dlpduck.Prelude.{
  ℕ, ◌+◌, String, Bool, true, false, not, List, [], ◌∷◌, ◌++◌, map, str_eq, ltb, leb, if◌then◌else◌,
  length, keep_if,
}

-- `_failures`: the times of the failures of each key, oldest first.
abbrev pub Failures : Type 0
Failures = List (String × List ℕ)

-- `_MAX_TRACKED`
abbrev pub max_tracked : ℕ
max_tracked = 10000

-- self._failures.get(key), where a missing key has no failures.
unfoldable pub window : String → Failures → List ℕ
window k [] = []
window k ((j, ts) ∷ m) = if str_eq j k then ts else window k m

unfoldable pub put_window : String → List ℕ → Failures → Failures
put_window k ts [] = (k, ts) ∷ []
put_window k ts ((j, us) ∷ m) = if str_eq j k then (j, ts) ∷ m else (j, us) ∷ put_window k ts m

unfoldable pub pop_window : String → Failures → Failures
pop_window k [] = []
pop_window k ((j, ts) ∷ m) = if str_eq j k then m else (j, ts) ∷ pop_window k m

abbrev pub is_blank : String → Bool
is_blank k = str_eq k ""

abbrev pub no_times : List ℕ → Bool
no_times [] = true
no_times (t ∷ ts) = false

module _ (max_failures lockout_seconds : ℕ) where
  -- window[0] < cutoff
  abbrev pub is_expired : ℕ → ℕ → Bool
  is_expired now t = ltb (t + lockout_seconds) now

  unfoldable pub drop_expired : ℕ → List ℕ → List ℕ
  drop_expired now [] = []
  drop_expired now (t ∷ ts) = if is_expired now t then drop_expired now ts else t ∷ ts

  -- `_recent`: the table with the key's window trimmed.
  unfoldable pub recent : String → ℕ → Failures → Failures
  unfolding window put_window drop_expired
  recent k now m = put_window k (drop_expired now (window k m)) m

  -- `is_locked`, with the table that it leaves. `any` stops at the first key that is locked.
  unfoldable pub is_locked : List String → ℕ → Failures → Bool × Failures
  unfolding recent
  is_locked [] now m = (false, m)
  is_locked (k ∷ ks) now m =
      let m' = recent k now m in
      let skipped = is_locked ks now m in
      let rest = is_locked ks now m' in
      if is_blank k
      then skipped
      else if leb max_failures (length (window k m'))
      then (true, m')
      else rest

  unfoldable pub record_each : List String → ℕ → Failures → Failures
  unfolding recent
  record_each [] now m = m
  record_each (k ∷ ks) now m =
      record_each ks now
        (if is_blank k then m else put_window k (window k (recent k now m) ++ now ∷ []) m)

  -- The keys that have no recent failure are forgotten.
  abbrev pub trimmed : ℕ → String × List ℕ → String × List ℕ
  trimmed now (k, ts) = (k, drop_expired now ts)

  abbrev pub is_kept : String × List ℕ → Bool
  is_kept (k, ts) = not (no_times ts)

  unfoldable pub forget_expired : ℕ → Failures → Failures
  unfolding drop_expired
  forget_expired now m = keep_if is_kept (map (trimmed now) m)

  unfoldable pub record_failure : List String → ℕ → Failures → Failures
  unfolding record_each forget_expired
  record_failure ks now m =
      let m' = record_each ks now m in
      if ltb max_tracked (length m') then forget_expired now m' else m'

unfoldable pub record_success : List String → Failures → Failures
unfolding pop_window
record_success [] m = m
record_success (k ∷ ks) m = record_success ks (pop_window k m)
