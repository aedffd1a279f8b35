-- ===== src/Watcher/Grace.antt =====
-- How long a file waits in the drop folder: `discover_ready` (dlpduck/watcher.py).
use dlpduck.Prelude.{
  ℕ, zero, suc, ◌+◌, ◌-◌, ◌≤◌, String, ◌≡◌, refl, ap, ◌∙◌, ◌⊎◌, inl, inr, Bool, true, false, ◌||◌,
  Option, none, some, List, [], ◌∷◌, arith, ltb, ◌==◌, if◌then◌else◌, ==_iff, length, All,
}
use dlpduck.Watcher.{
  Naming, Entry, Source, list_names, companion, Tracked, Tracking, touch, Verdict, waiting, ready,
  check_file, discover_ready,
}
use dlpduck.Watcher.Poll.{taken, settle, outcome_at, candidate_of, discover_ready-file}

module _ (py : Naming) (cfg : Source) where
  -- The polls that a tracked file of the same size still needs, at most.
  abbrev polls_left : Tracked → ℕ
  polls_left t =
      if ltb t.stable_polls cfg.stability_polls
      then cfg.stability_polls - t.stable_polls + cfg.metadata_grace_polls
      else suc cfg.metadata_grace_polls - t.grace_polls

  -- It is still the size that it was.
  abbrev IsNear : ℕ → ℕ → Option Tracked → Type 0
  IsNear size k none = cfg.stability_polls + cfg.metadata_grace_polls ≤ k
  IsNear size k (some t) =
      ((t.size == size) ≡ true → polls_left t ≤ k)
      × ((t.size == size) ≡ false → cfg.stability_polls + cfg.metadata_grace_polls ≤ k)

  -- A poll reports the file, or leaves it nearer and not yet due.
  abbrev IsCloser : ℕ → ℕ → Verdict → Type 0
  IsCloser size k (waiting t) = ((t.size == size) ≡ true) × (1 ≤ polls_left t) × (polls_left t ≤ k)
  IsCloser size k (ready beside) = Unit

  check_file-IsCloser :
      (beside : Option Entry) (size k : ℕ) (prev : Option Tracked)
      → 1 ≤ cfg.stability_polls
      → IsNear size (suc k) prev
      → IsCloser size k (check_file cfg beside size prev)
  unfolding check_file touch
  check_file-IsCloser none size k none pos near = ground (arith, ==_iff size size)
  check_file-IsCloser (some c) size k none pos near = ground (arith, ==_iff size size)
  check_file-IsCloser none size k (some t) pos near = ground (arith, ==_iff size size)
  check_file-IsCloser (some c) size k (some t) pos near = ground (arith, ==_iff size size)

  -- The folder has the file among its candidates, at the size.
  abbrev pub IsPresent : String → ℕ → List Entry → Type 0
  IsPresent n size folder =
      (e : Entry) × (candidate_of py cfg n folder ≡ some e) × (e.st_size ≡ some size)

  abbrev is_some : Option (Option Entry) → Bool
  is_some none = false
  is_some (some beside) = true

  -- One of the polls, the first one first, reports the file.
  abbrev pub reported : String → List (List Entry) → Tracking → Bool
  reported n [] m = false
  reported n (folder ∷ later) m =
      let (found, m') = discover_ready py cfg folder m in
      is_some (taken n found) || reported n later m'

  settle-IsCloser :
      (size k : ℕ) (v : Verdict)
      → IsCloser size k v
      → (is_some (settle v).0 ≡ true)
        ⊎ (((settle v).0 ≡ none) × (1 ≤ k) × IsNear size k (settle v).1)
  settle-IsCloser size k (waiting t) h =
      inr (refl, omega (arith, h.1, h.2), (λ q. h.2, λ q. absurd (cc (h.0, q))))
  settle-IsCloser size k (ready beside) h = inl refl

  -- What a poll does to a file that is there.
  discover_ready-present :
      (n : String) (size k : ℕ) (folder : List Entry) (m : Tracking)
      → 1 ≤ cfg.stability_polls
      → IsPresent n size folder
      → IsNear size (suc k) (m n)
      → (is_some (taken n (discover_ready py cfg folder m).0) ≡ true)
        ⊎ ((taken n (discover_ready py cfg folder m).0 ≡ none)
            × (1 ≤ k)
            × IsNear size k ((discover_ready py cfg folder m).1 n))
  discover_ready-present n size k folder m pos here near =
      let e = here.0 in
      let listing = list_names py folder in
      let poll = discover_ready-file py cfg n folder (some e) m here.1 in
      rw
        (
          poll.0 ∙ ap (λ st. (outcome_at py cfg listing e st (m n)).0) here.2,
          poll.1 ∙ ap (λ st. (outcome_at py cfg listing e st (m n)).1) here.2,
        )
        (settle-IsCloser size k (check_file cfg (companion py cfg listing e) size (m n))
          (check_file-IsCloser (companion py cfg listing e) size k (m n) pos near))

  reported-near :
      (n : String) (size k : ℕ) (polls : List (List Entry)) (m : Tracking)
      → 1 ≤ cfg.stability_polls
      → All (IsPresent n size) polls
      → IsNear size (suc k) (m n)
      → suc k ≤ length polls
      → reported n polls m ≡ true
  reported-near n size k [] m pos here near enough = absurd (omega (arith, enough))
  reported-near n size zero (folder ∷ later) m pos here near enough =
      elim (discover_ready-present n size zero folder m pos here.0 near) [
        | inl now ↦ rw now refl
        | inr later_on ↦ absurd (omega (arith, later_on.1))
      ]
  reported-near n size (suc k) (folder ∷ later) m pos here near enough =
      elim (discover_ready-present n size (suc k) folder m pos here.0 near) [
        | inl now ↦ rw now refl
        | inr later_on ↦ rw later_on.0 (
            reported-near n size k later (discover_ready py cfg folder m).1 pos here.1 later_on.2
              (omega (arith, enough)))
      ]

  any-IsNear :
      (size : ℕ) (o : Option Tracked)
      → 1 ≤ cfg.stability_polls
      → IsNear size (suc (cfg.stability_polls + cfg.metadata_grace_polls - 1)) o
  any-IsNear size none pos = ground arith
  any-IsNear size (some t) pos = ground arith

  -- A file whose size does not change is reported within `stability_polls` + `metadata_grace_polls`
  -- polls, from the first of them on, whatever was tracked before and whatever becomes of the other
  -- files and of its companion; `stability_polls` is at least 1, as the settings require.
  pub reported-within :
      (n : String) (size : ℕ) (polls : List (List Entry)) (m : Tracking)
      → 1 ≤ cfg.stability_polls
      → All (IsPresent n size) polls
      → cfg.stability_polls + cfg.metadata_grace_polls ≤ length polls
      → reported n polls m ≡ true
  reported-within n size polls m pos here enough =
      reported-near n size (cfg.stability_polls + cfg.metadata_grace_polls - 1) polls m pos here
        (any-IsNear size (m n) pos) (omega (arith, pos, enough))
