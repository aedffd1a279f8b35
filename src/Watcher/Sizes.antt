-- ===== src/Watcher/Sizes.antt =====
-- What a file had been for `discover_ready` (dlpduck/watcher.py) to report it.
use mathlib.Core.Path.{subst}
use dlpduck.Prelude.{
  ℕ, suc, ◌≤◌, ◌<◌, String, ◌≡◌, refl, sym, ap, ◌∙◌, ◌⊎◌, inl, inr, Bool, true, false, Option, none,
  some, List, [], ◌∷◌, map, arith, ltb, leb, ◌==◌, if◌then◌else◌, ltb→lt, ==_iff, Bool-cases, take,
  replicate, take-shorter,
}
use dlpduck.Watcher.{
  Naming, Entry, Source, Listing, list_names, companion, Tracked, Tracking, touch, ready,
  await_companion, check_file, discover_ready,
}
use dlpduck.Watcher.Poll.{taken, settle, outcome_at, outcome_of, candidate_of, discover_ready-file}

module _ (py : Naming) (cfg : Source) where
  -- `_tracked` after polls of these folders, the last one first, by a process that starts with
  -- nothing tracked.
  abbrev pub tracked_after : List (List Entry) → Tracking
  tracked_after [] = λ j. none
  tracked_after (folder ∷ past) = (discover_ready py cfg folder (tracked_after past)).1

  -- A poll of the file: the size that `stat` gave, and whether no companion was beside it.
  abbrev pub Sighting : Type 0
  Sighting = ℕ × Bool

  abbrev pub is_alone : Listing → Entry → Bool
  is_alone listing e = elim (companion py cfg listing e) [ none ↦ true | some beside ↦ false ]

  abbrev sight_at : Bool → Option ℕ → List Sighting → List Sighting
  sight_at lone none past = past
  sight_at lone (some size) past = (size, lone) ∷ past

  abbrev sight : Listing → Option Entry → List Sighting → List Sighting
  sight listing none past = []
  sight listing (some e) past = sight_at (is_alone listing e) e.st_size past

  -- The polls that found a name, the last one first, since it was last missing from the candidates.
  abbrev pub sightings : String → List (List Entry) → List Sighting
  sightings n [] = []
  sightings n (folder ∷ past) =
      sight (list_names py folder) (candidate_of py cfg n folder) (sightings n past)

  abbrev sizes : List Sighting → List ℕ
  sizes ss = map (λ (s : Sighting). s.0) ss

  abbrev alone : List Sighting → List Bool
  alone ss = map (λ (s : Sighting). s.1) ss

  -- The counts of a tracked file are of polls that found its size, and that found it alone.
  abbrev IsSeen : Option Tracked → List Sighting → Type 0
  IsSeen none ss = Unit
  IsSeen (some t) ss =
      ((take t.stable_polls (sizes ss) ≡ replicate t.stable_polls t.size)
        × (take t.grace_polls (alone ss) ≡ replicate t.grace_polls true)
        × (t.stable_polls < cfg.stability_polls → t.grace_polls ≡ 0))

  abbrev pub IsSteady : List Sighting → Type 0
  IsSteady ss =
      (size : ℕ) × (take cfg.stability_polls (sizes ss) ≡ replicate cfg.stability_polls size)

  -- The wait for a companion was over, where one was expected.
  abbrev pub IsPatient : Option Entry → List Sighting → Type 0
  IsPatient (some beside) ss = Unit
  IsPatient none ss =
      (cfg.wants_metadata ≡ false)
      ⊎ (take (suc cfg.metadata_grace_polls) (alone ss)
          ≡ replicate (suc cfg.metadata_grace_polls) true)

  abbrev IsDue : Option (Option Entry) → List Sighting → Type 0
  IsDue none ss = Unit
  IsDue (some beside) ss = IsSteady ss × IsPatient beside ss

  touch-IsSeen :
      (size : ℕ) (lone : Bool) (prev : Option Tracked) (ss : List Sighting)
      → IsSeen prev ss
      → (take (touch size prev).stable_polls (size ∷ sizes ss)
          ≡ replicate (touch size prev).stable_polls (touch size prev).size)
        × (take (touch size prev).grace_polls (alone ss)
            ≡ replicate (touch size prev).grace_polls true)
        × ((touch size prev).stable_polls < cfg.stability_polls → (touch size prev).grace_polls ≡ 0)
  unfolding touch
  touch-IsSeen size lone none ss h = (refl, refl, λ lt. refl)
  touch-IsSeen size lone (some t) ss h = elim (Bool-cases (t.size == size)) [
    | inl e ↦ rw e (cc (h.0, (==_iff t.size size).0 e), h.1, λ lt. h.2 (omega (arith, lt)))
    | inr e ↦ rw e (refl, refl, λ lt. refl)
  ]

  -- The facts that a stable file has before its verdict.
  abbrev IsStable : ℕ → Tracked → List Sighting → Type 0
  IsStable size t ss =
      ((take t.stable_polls (size ∷ sizes ss) ≡ replicate t.stable_polls t.size)
        × (take t.grace_polls (alone ss) ≡ replicate t.grace_polls true)
        × (cfg.stability_polls ≤ t.stable_polls))

  steady :
      (size : ℕ) (lone : Bool) (t : Tracked) (ss : List Sighting)
      → IsStable size t ss
      → IsSteady ((size, lone) ∷ ss)
  steady size lone t ss h =
      (t.size, take-shorter cfg.stability_polls t.stable_polls t.size (size ∷ sizes ss) h.2 h.0)

  await_companion-IsSeen :
      (beside : Option Entry) (lone : Bool) (size : ℕ) (t : Tracked) (ss : List Sighting)
      → lone ≡ elim beside [ none ↦ true | some c ↦ false ]
      → IsStable size t ss
      → cfg.wants_metadata ≡ true
      → IsDue (settle (await_companion cfg t beside)).0 ((size, lone) ∷ ss)
        × IsSeen (settle (await_companion cfg t beside)).1 ((size, lone) ∷ ss)
  await_companion-IsSeen (some c) lone size t ss l h w = ((steady size lone t ss h, tt), tt)
  await_companion-IsSeen none lone size t ss l h w =
      elim (Bool-cases (leb (suc t.grace_polls) cfg.metadata_grace_polls)) [
        | inl more ↦ rw more (
          tt,
          (
            h.0,
            rw l (ap (λ (bs : List Bool). true ∷ bs) h.1),
            λ lt. absurd (omega (arith, lt, h.2)),
          ),
        )
        | inr over ↦ rw over (
          (
            steady size lone t ss h,
            inr (
                rw l (
                  ap (λ (bs : List Bool). true ∷ bs)
                    (take-shorter cfg.metadata_grace_polls t.grace_polls true (alone ss)
                      (ground (arith, over)) h.1))),
          ),
          tt,
        )
      ]

  stable-IsSeen :
      (wanted : Bool) (beside : Option Entry) (lone : Bool) (size : ℕ) (t : Tracked)
      (ss : List Sighting)
      → lone ≡ elim beside [ none ↦ true | some c ↦ false ]
      → IsStable size t ss
      → cfg.wants_metadata ≡ wanted
      → IsDue
          (settle (if wanted then await_companion cfg t beside else ready none)).0
          ((size, lone) ∷ ss)
        × IsSeen
            (settle (if wanted then await_companion cfg t beside else ready none)).1
            ((size, lone) ∷ ss)
  stable-IsSeen true beside lone size t ss l h w =
      await_companion-IsSeen beside lone size t ss l h w
  stable-IsSeen false beside lone size t ss l h w = ((steady size lone t ss h, inl w), tt)

  check_file-IsSeen :
      (beside : Option Entry) (lone : Bool) (size : ℕ) (prev : Option Tracked) (ss : List Sighting)
      → lone ≡ elim beside [ none ↦ true | some c ↦ false ]
      → IsSeen prev ss
      → IsDue (settle (check_file cfg beside size prev)).0 ((size, lone) ∷ ss)
        × IsSeen (settle (check_file cfg beside size prev)).1 ((size, lone) ∷ ss)
  unfolding check_file
  check_file-IsSeen beside lone size prev ss l h =
      let seen = touch-IsSeen size lone prev ss h in
      let t = touch size prev in
      elim (Bool-cases (ltb t.stable_polls cfg.stability_polls)) [
        | inl early ↦ rw early (tt, (seen.0, rw (seen.2 (ltb→lt _ _ early)) refl, seen.2))
        | inr stable ↦ rw stable (
            stable-IsSeen cfg.wants_metadata beside lone size t ss l (seen.0, seen.1, ground arith)
              refl)
      ]

  outcome_at-IsSeen :
      (listing : Listing) (e : Entry) (st : Option ℕ) (prev : Option Tracked) (ss : List Sighting)
      → IsSeen prev ss
      → IsDue (outcome_at py cfg listing e st prev).0 (sight_at (is_alone listing e) st ss)
        × IsSeen (outcome_at py cfg listing e st prev).1 (sight_at (is_alone listing e) st ss)
  outcome_at-IsSeen listing e none prev ss h = (tt, h)
  outcome_at-IsSeen listing e (some size) prev ss h =
      check_file-IsSeen (companion py cfg listing e) (is_alone listing e) size prev ss refl h

  outcome_of-IsSeen :
      (listing : Listing) (o : Option Entry) (prev : Option Tracked) (ss : List Sighting)
      → IsSeen prev ss
      → IsDue (outcome_of py cfg listing o prev).0 (sight listing o ss)
        × IsSeen (outcome_of py cfg listing o prev).1 (sight listing o ss)
  outcome_of-IsSeen listing none prev ss h = (tt, tt)
  outcome_of-IsSeen listing (some e) prev ss h = outcome_at-IsSeen listing e e.st_size prev ss h

  tracked_after-IsSeen :
      (n : String) (polls : List (List Entry)) → IsSeen (tracked_after polls n) (sightings n polls)
  tracked_after-IsSeen n [] = tt
  tracked_after-IsSeen n (folder ∷ past) =
      let o = candidate_of py cfg n folder in
      rw (discover_ready-file py cfg n folder o (tracked_after past) refl).1
        (outcome_of-IsSeen (list_names py folder) o (tracked_after past n) (sightings n past)
          (tracked_after-IsSeen n past)).1

  -- When a poll reports a file as ready, whatever polls came before it, the last `stability_polls`
  -- polls that found the file since it was last missing found it with one and the same size; and
  -- where a companion is expected and the file is reported without one, the last
  -- `metadata_grace_polls` + 1 of those polls found no companion beside it.
  pub ready-IsSteady :
      (n : String) (folder : List Entry) (past : List (List Entry)) (beside : Option Entry)
      → taken n (discover_ready py cfg folder (tracked_after past)).0 ≡ some beside
      → IsSteady (sightings n (folder ∷ past)) × IsPatient beside (sightings n (folder ∷ past))
  ready-IsSteady n folder past beside h =
      let o = candidate_of py cfg n folder in
      let due =
        (outcome_of-IsSeen (list_names py folder) o (tracked_after past n) (sightings n past)
          (tracked_after-IsSeen n past)).0 in
      subst (λ r. IsDue r (sightings n (folder ∷ past)))
        (sym (discover_ready-file py cfg n folder o (tracked_after past) refl).0 ∙ h) due
