-- ===== src/Tests/Intake.antt =====
-- The drop folder on concrete inputs.
use dlpduck.Prelude.{ℕ, ◌≡◌, refl, true, none, some, [], ◌∷◌, arith, str_eq, concat}
use dlpduck.Watcher.{
  Naming, Entry, Source, accepts, list_names, candidates, companion, touch, check_file, visit,
  visit_all, discover_ready,
}
use dlpduck.Watcher.Poll.{taken}
use dlpduck.Watcher.Sizes.{tracked_after, sightings, IsSteady, IsPatient, ready-IsSteady}
use dlpduck.Watcher.Grace.{IsPresent, reported, reported-within}

-- Names that are in lower case, of three letters before the suffix.
abbrev plain_names : Naming
plain_names = record {
  lower = λ s. s;
  stem = λ s. "doc";
  endswith = λ s suffix. str_eq (concat "doc" suffix) s;
  before = λ s t. true;
}

abbrev from_scanner : Source
from_scanner = record {
  pdf_suffix = ".pdf";
  image_suffixes = [];
  wants_metadata = true;
  metadata_suffix = ".xml";
  stability_polls = 2;
  metadata_grace_polls = 1;
}

abbrev doc : ℕ → Entry
doc size = record { name = "doc.pdf"; st_size = some size; is_file = true }

abbrev notes : Entry
notes = record { name = "doc.xml"; st_size = some 5; is_file = true }

-- A file that grows once is reported after two polls of its last size and one poll of grace.
grown :
    taken "doc.pdf"
      (discover_ready plain_names from_scanner (doc 9 ∷ []) (
        tracked_after plain_names from_scanner ((doc 9 ∷ []) ∷ (doc 9 ∷ []) ∷ (doc 4 ∷ []) ∷ []))).0
    ≡ some none
unfolding discover_ready visit_all visit check_file touch companion candidates accepts list_names
grown = refl

-- A companion ends the wait.
accompanied :
    taken "doc.pdf"
      (discover_ready plain_names from_scanner
        (notes ∷ doc 9 ∷ [])
        (tracked_after plain_names from_scanner ((doc 9 ∷ []) ∷ []))).0
    ≡ some (some notes)
unfolding discover_ready visit_all visit check_file touch companion candidates accepts list_names
accompanied = refl

ready-IsSteady_example :
    IsSteady plain_names from_scanner (
      sightings plain_names from_scanner "doc.pdf"
        ((doc 9 ∷ []) ∷ (doc 9 ∷ []) ∷ (doc 9 ∷ []) ∷ (doc 4 ∷ []) ∷ []))
    × IsPatient plain_names from_scanner none (
        sightings plain_names from_scanner "doc.pdf"
          ((doc 9 ∷ []) ∷ (doc 9 ∷ []) ∷ (doc 9 ∷ []) ∷ (doc 4 ∷ []) ∷ []))
ready-IsSteady_example =
    ready-IsSteady plain_names from_scanner "doc.pdf" (doc 9 ∷ [])
      ((doc 9 ∷ []) ∷ (doc 9 ∷ []) ∷ (doc 4 ∷ []) ∷ []) none grown

doc-IsPresent : IsPresent plain_names from_scanner "doc.pdf" 9 (doc 9 ∷ [])
unfolding candidates accepts list_names
doc-IsPresent = (doc 9, refl, refl)

reported-within_example :
    reported plain_names from_scanner "doc.pdf"
      ((doc 9 ∷ []) ∷ (doc 9 ∷ []) ∷ (doc 9 ∷ []) ∷ [])
      (λ j. none)
    ≡ true
reported-within_example =
    reported-within plain_names from_scanner "doc.pdf" 9
      ((doc 9 ∷ []) ∷ (doc 9 ∷ []) ∷ (doc 9 ∷ []) ∷ []) (λ j. none) (omega arith)
      (doc-IsPresent, (doc-IsPresent, (doc-IsPresent, tt))) (omega arith)
