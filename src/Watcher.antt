-- ===== src/Watcher.antt =====
-- dlpduck/watcher.py: a poll of the drop folder, and `SourceConfig.accepts` (dlpduck/config.py).
pub mod Poll
pub mod Sizes
pub mod Grace
use dlpduck.Prelude.{
  ℕ, suc, String, Bool, not, ◌&&◌, Option, none, some, List, [], ◌∷◌, ◌++◌, map, str_eq, concat,
  ltb, leb, ◌==◌, if◌then◌else◌, keep_if, any_of,
}

-- The strings that Python's library computes: str.lower, Path.stem, str.endswith and the order of
-- paths.
pub record Naming : Type 0 where
  pub lower : String → String
  pub stem : String → String
  pub endswith : String → String → Bool
  pub before : String → String → Bool

-- A name in the drop folder; `stat` gives its size, or FileNotFoundError.
pub record Entry : Type 0 where
  pub name : String
  pub st_size : Option ℕ
  pub is_file : Bool

-- The part of `SourceConfig` that the watcher reads.
pub record Source : Type 0 where
  pub pdf_suffix : String
  pub image_suffixes : List String
  pub wants_metadata : Bool  -- metadata_format != "none"
  pub metadata_suffix : String
  pub stability_polls : ℕ
  pub metadata_grace_polls : ℕ

unfoldable pub accepts : Naming → Source → String → Bool
accepts py cfg n =
    any_of
      (λ (suffix : String). not (str_eq suffix "") && py.endswith (py.lower n) (py.lower suffix))
      (cfg.pdf_suffix ∷ cfg.image_suffixes)

-- `{p.name.lower(): p for p in src.iterdir()}`
abbrev pub Listing : Type 0
Listing = List (String × Entry)

abbrev pub put_entry : String → Entry → Listing → Listing
put_entry k e [] = (k, e) ∷ []
put_entry k e ((j, f) ∷ m) = if str_eq j k then (j, e) ∷ m else (j, f) ∷ put_entry k e m

abbrev pub get_entry : String → Listing → Option Entry
get_entry k [] = none
get_entry k ((j, f) ∷ m) = if str_eq j k then some f else get_entry k m

abbrev pub list_into : Naming → Listing → List Entry → Listing
list_into py m [] = m
list_into py m (e ∷ es) = list_into py (put_entry (py.lower e.name) e m) es

unfoldable pub list_names : Naming → List Entry → Listing
list_names py es = list_into py [] es

-- Python's sorted(...), by insertion.
abbrev pub insert_sorted : Naming → Entry → List Entry → List Entry
insert_sorted py e [] = e ∷ []
insert_sorted py e (f ∷ fs) =
    if py.before f.name e.name then f ∷ insert_sorted py e fs else e ∷ f ∷ fs

abbrev pub sort_names : Naming → List Entry → List Entry
sort_names py [] = []
sort_names py (e ∷ es) = insert_sorted py e (sort_names py es)

unfoldable pub candidates : Naming → Source → Listing → List Entry
unfolding accepts
candidates py cfg listing =
    sort_names py
      (keep_if (λ (e : Entry). accepts py cfg e.name) (map (λ (p : String × Entry). p.1) listing))

unfoldable pub companion : Naming → Source → Listing → Entry → Option Entry
companion py cfg listing doc =
    elim (get_entry (py.lower (concat (py.stem doc.name) cfg.metadata_suffix)) listing) [
      | none ↦ none
      | some candidate ↦ if candidate.is_file then some candidate else none
    ]

-- `_Tracked`
pub record Tracked : Type 0 where
  pub size : ℕ
  pub stable_polls : ℕ
  pub grace_polls : ℕ

-- `_tracked`, by the name of the file.
abbrev pub Tracking : Type 0
Tracking = String → Option Tracked

abbrev pub put_tracked : String → Option Tracked → Tracking → Tracking
put_tracked k v m = λ j. if str_eq k j then v else m j

-- The entry that a poll continues with: the tracked one where the size is the same.
unfoldable pub touch : ℕ → Option Tracked → Tracked
touch size none = record { size = size; stable_polls = 1; grace_polls = 0 }
touch size (some prev) =
    if prev.size == size
    then record {
      size = prev.size;
      stable_polls = suc prev.stable_polls;
      grace_polls = prev.grace_polls;
    }
    else record { size = size; stable_polls = 1; grace_polls = 0 }

-- A file waits for a later poll, or is ready, with its companion where there is one.
pub data Verdict : Type 0 where
  waiting : Tracked → Verdict
  ready : Option Entry → Verdict

-- The polls with no companion beside a stable file are counted; a companion ends the wait.
abbrev pub await_companion : Source → Tracked → Option Entry → Verdict
await_companion cfg t (some beside) = ready (some beside)
await_companion cfg t none =
    let spent = suc t.grace_polls in
    if leb spent cfg.metadata_grace_polls
    then waiting record { size = t.size; stable_polls = t.stable_polls; grace_polls = spent }
    else ready none

unfoldable pub check_file : Source → Option Entry → ℕ → Option Tracked → Verdict
unfolding touch
check_file cfg beside size prev =
    let t = touch size prev in
    if ltb t.stable_polls cfg.stability_polls
    then waiting t
    else if cfg.wants_metadata
    then await_companion cfg t beside
    else ready none

-- One round of the loop over the candidates: what it appends to `ready`, and `_tracked`.
unfoldable pub visit :
    Naming → Source → Listing → Entry → Tracking → List (Entry × Option Entry) × Tracking
unfolding check_file companion
visit py cfg listing e m = elim e.st_size [
  | none ↦ ([], m)
  | some size ↦ elim (check_file cfg (companion py cfg listing e) size (m e.name)) [
    | waiting t ↦ ([], put_tracked e.name (some t) m)
    | ready beside ↦ ((e, beside) ∷ [], put_tracked e.name none m)
  ]
]

unfoldable pub visit_all :
    Naming → Source → Listing → List Entry → Tracking → List (Entry × Option Entry) × Tracking
unfolding visit
visit_all py cfg listing [] m = ([], m)
visit_all py cfg listing (e ∷ es) m =
    let (found, m1) = visit py cfg listing e m in
    let (more, m2) = visit_all py cfg listing es m1 in (found ++ more, m2)

abbrev pub is_named : String → Entry → Bool
is_named n e = str_eq e.name n

-- The files that disappeared are no longer tracked.
abbrev pub drop_stale : List Entry → Tracking → Tracking
drop_stale seen m = λ j. if any_of (is_named j) seen then m j else none

-- `discover_ready`, over the folder as `iterdir` lists it.
unfoldable pub discover_ready :
    Naming → Source → List Entry → Tracking → List (Entry × Option Entry) × Tracking
unfolding visit_all candidates list_names
discover_ready py cfg folder m =
    let listing = list_names py folder in
    let seen = candidates py cfg listing in
    let (found, m1) = visit_all py cfg listing seen m in (found, drop_stale seen m1)
