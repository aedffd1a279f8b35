-- ===== src/Tests/Stores.antt =====
-- The content store and the login throttle on concrete inputs.
use dlpduck.Prelude.{
  ℕ, String, ◌≡◌, refl, ◌↔◌, ◌⊎◌, true, false, not, none, some, List, [], ◌∷◌, ◌++◌, arith, length,
  replicate, keep_if,
}
use dlpduck.Document.{Text, newline}
use dlpduck.Content.{match_class, is_job_id, StoredFile, is_of, purge_content, has_content}
use dlpduck.Content.Ids.{AllHex, is_job_id_iff}
use dlpduck.Content.Purging.{
  purge_started, content_purged, Holdings, purge_job, IsIntended, purge_job_lem,
}
use dlpduck.Content.Purge.{purge_content_lem}
use dlpduck.Throttle.{
  window, put_window, pop_window, drop_expired, recent, is_locked, record_each, record_failure,
  record_success,
}
use dlpduck.Run.Does.{Ended}
use dlpduck.Retention.{
  Folder, RetentionPlan, eligible_partitions, eligible_failures, cutoff_for, Target, plan_store,
  plan_retention, Disk, apply_retention,
}
use dlpduck.Retention.Explained.{is_present, is_planned, IsExplained, apply_retention-IsExplained}
use dlpduck.Throttle.Refines.{
  Call, asked, failed, succeeded, IsOrdered, answers, required_answers, throttle_refines_counting,
}

abbrev one_job : Text
one_job = replicate 32 b'a'

abbrev other_job : Text
other_job = replicate 32 b'b'

abbrev two_files : List StoredFile
two_files = record { dt = 10; stem = one_job } ∷ record { dt = 10; stem = other_job } ∷ []

is_job_id-newline : is_job_id (one_job ++ newline ∷ []) ≡ true
unfolding is_job_id match_class
is_job_id-newline = refl

wildcard_refused : is_job_id (b'*' ∷ []) ≡ false
unfolding is_job_id match_class
wildcard_refused = refl

is_job_id_iff_example : (is_job_id (one_job ++ newline ∷ []) ≡ true) ↔ (
    (ds : Text) × (length ds ≡ 32)
    × AllHex ds
    × ((one_job ++ newline ∷ [] ≡ ds) ⊎ (one_job ++ newline ∷ [] ≡ ds ++ newline ∷ [])))
is_job_id_iff_example = is_job_id_iff (one_job ++ newline ∷ [])

purged : purge_content two_files one_job ≡ some (record { dt = 10; stem = other_job } ∷ [], true)
unfolding purge_content is_job_id match_class
purged = refl

purge_content_lem_example :
    (has_content (record { dt = 10; stem = other_job } ∷ []) one_job ≡ some false)
    × (has_content two_files one_job ≡ some true)
    × (keep_if (is_of other_job) (record { dt = 10; stem = other_job } ∷ [])
        ≡ keep_if (is_of other_job) two_files)
    × (purge_content (record { dt = 10; stem = other_job } ∷ []) one_job
        ≡ some (record { dt = 10; stem = other_job } ∷ [], false))
purge_content_lem_example =
    purge_content_lem two_files (record { dt = 10; stem = other_job } ∷ []) one_job other_job true
      purged refl

-- Three failures lock a name out; the lock ends when they are old enough, and a success clears
-- them.
abbrev calls : List Call
calls =
    failed ("ada" ∷ "host" ∷ []) 1
    ∷ failed ("ada" ∷ "host" ∷ []) 2
    ∷ asked ("ada" ∷ []) 3
    ∷ failed ("ada" ∷ "" ∷ []) 4
    ∷ asked ("bob" ∷ "ada" ∷ []) 5
    ∷ asked ("ada" ∷ []) 20
    ∷ succeeded ("host" ∷ [])
    ∷ asked ("host" ∷ "" ∷ []) 20
    ∷ []

throttled : answers 3 10 calls [] ≡ false ∷ true ∷ false ∷ false ∷ []
unfolding is_locked record_failure record_each record_success recent window put_window pop_window
    drop_expired
throttled = refl

calls-IsOrdered : IsOrdered 0 calls
calls-IsOrdered = (
  omega arith,
  (
    omega arith,
    (omega arith, (omega arith, (omega arith, (omega arith, (omega arith, (omega arith, tt)))))),
  ),
)

throttle_refines_counting_example : answers 3 10 calls [] ≡ required_answers 3 10 calls (λ k. [])
throttle_refines_counting_example = throttle_refines_counting 3 10 calls calls-IsOrdered

abbrev day_folder : String → ℕ → Folder
day_folder name day = record { name = name; is_dir = true; is_symlink = false; date = some day }

abbrev stores_on_day_20 : List Target
stores_on_day_20 =
    record {
      store = "archive";
      days = some 5;
      holds = day_folder "dt=10" 10 ∷ day_folder "dt=15" 15 ∷ [];
    }
    ∷ record { store = "index"; days = none; holds = day_folder "dt=10" 10 ∷ [] }
    ∷ []

abbrev planned : List RetentionPlan
planned =
    record { store = "archive"; cutoff = some 15; eligible = "dt=10" ∷ [] }
    ∷ record { store = "index"; cutoff = none; eligible = [] }
    ∷ []

planned_on_day_20 : plan_retention 20 stores_on_day_20 ≡ some planned
unfolding plan_retention plan_store cutoff_for eligible_partitions eligible_failures
planned_on_day_20 = refl

abbrev disk : Disk
disk = record {
  present = ("archive", "dt=10") ∷ ("archive", "dt=15") ∷ ("index", "dt=10") ∷ [];
  trail = [];
  checkpointed = [];
}

apply_retention-IsExplained_example :
    Ended
      (IsExplained "archive" "dt=10")
      (λ k d'.
        IsExplained "archive" "dt=10" d'
        × (is_present "archive" "dt=10" d' ≡ not (is_planned "archive" "dt=10" planned)))
      (apply_retention planned 9 disk)
apply_retention-IsExplained_example =
    apply_retention-IsExplained "archive" "dt=10" planned 9 disk refl

abbrev holdings : Holdings
holdings = record { content = true; document = true; pending_text = true; trail = [] }

purge_job_lem_example :
    Ended
      (IsIntended true holdings)
      (λ found w.
        (found ≡ (true, some true))
        × (w ≡ record {
          content = false;
          document = false;
          pending_text = false;
          trail = purge_started true ∷ content_purged true true (some true) true ∷ [];
        }))
      (purge_job true 9 holdings)
purge_job_lem_example = purge_job_lem true 9 holdings
