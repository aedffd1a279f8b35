-- ===== src/Retention.antt =====
-- dlpduck/retention.py: what is old enough to be removed, and its removal.
pub mod Explained
use dlpduck.Prelude.{
  ℕ, ◌+◌, ◌-◌, String, Bool, true, false, not, ◌&&◌, Option, none, some, List, [], ◌∷◌, ◌++◌, map,
  str_eq, ltb, if◌then◌else◌, length, keep_if,
}
use dlpduck.Run.{Run, pure, durable, ◌>>=◌, ◌>>◌}

-- A directory of a store. Its date is that of its name, or of its metadata.json, where it can be
-- read.
pub record Folder : Type 0 where
  pub name : String
  pub is_dir : Bool
  pub is_symlink : Bool
  pub date : Option ℕ

-- `RetentionPlan`, without the root
pub record RetentionPlan : Type 0 where
  pub store : String
  pub cutoff : Option ℕ
  pub eligible : List String

abbrev is_before : ℕ → Option ℕ → Bool
is_before cutoff none = false
is_before cutoff (some day) = ltb day cutoff

abbrev folder_names : List Folder → List String
folder_names fs = map (λ (f : Folder). f.name) fs

-- `eligible_partitions`, over the directories in their order
unfoldable pub eligible_partitions : ℕ → List Folder → List String
eligible_partitions cutoff fs =
    folder_names (keep_if (λ (f : Folder). f.is_dir && is_before cutoff f.date) fs)

-- `eligible_failures`
unfoldable pub eligible_failures : ℕ → List Folder → List String
eligible_failures cutoff fs =
    folder_names
      (keep_if (λ (f : Folder). f.is_dir && not f.is_symlink && is_before cutoff f.date) fs)

-- cutoff_for, where a date before the first one is none: OverflowError.
unfoldable pub cutoff_for : ℕ → ℕ → Option ℕ
cutoff_for today days = if ltb days today then some (today - days) else none

-- A store with its window, where one is configured, and what it holds.
pub record Target : Type 0 where
  pub store : String
  pub days : Option ℕ
  pub holds : List Folder

unfoldable pub plan_store : Target → Option ℕ → RetentionPlan
unfolding eligible_partitions eligible_failures
plan_store t none = record { store = t.store; cutoff = none; eligible = [] }
plan_store t (some cutoff) = record {
  store = t.store;
  cutoff = some cutoff;
  eligible =
      if str_eq t.store "failed"
      then eligible_failures cutoff t.holds
      else eligible_partitions cutoff t.holds;
}

-- The plan of one store, or none where its cutoff overflows.
abbrev plan_target : ℕ → Target → Option RetentionPlan
plan_target today t = elim t.days [
  | none ↦ some (plan_store t none)
  | some days ↦ elim (cutoff_for today days) [
    | none ↦ none
    | some cutoff ↦ some (plan_store t (some cutoff))
  ]
]

abbrev both_plans : Option RetentionPlan → Option (List RetentionPlan) → Option (List RetentionPlan)
both_plans none rest = none
both_plans (some p) none = none
both_plans (some p) (some ps) = some (p ∷ ps)

-- `plan_retention`
unfoldable pub plan_retention : ℕ → List Target → Option (List RetentionPlan)
unfolding plan_store cutoff_for
plan_retention today [] = some []
plan_retention today (t ∷ ts) = both_plans (plan_target today t) (plan_retention today ts)

pub data RetentionEvent : Type 0 where
  started : String → Option ℕ → List String → RetentionEvent
  applied : String → Option ℕ → List String → RetentionEvent

-- The directories on disk, each with its store; the trail; and the partitions that a trim
-- checkpoint was written for.
pub record Disk : Type 0 where
  pub present : List (String × String)
  pub trail : List RetentionEvent
  pub checkpointed : List (List String)

abbrev pub tell : RetentionEvent → Disk → Disk
tell e d = record d { trail = d.trail ++ e ∷ [] }

abbrev pub is_entry : String → String → String × String → Bool
is_entry store name e = str_eq e.0 store && str_eq e.1 name

-- shutil.rmtree. The trail of a `Disk` is what is appended; the events in a partition of the audit
-- store that is removed are the business of Audit/Trim.
abbrev pub remove_folder : String → String → Disk → Disk
remove_folder store name d = record d {
  present = keep_if (λ e. not (is_entry store name e)) d.present;
}

unfoldable pub remove_all : String → List String → Run Disk Unit
unfolding ◌>>=◌
remove_all store [] = pure tt
remove_all store (name ∷ names) = durable (remove_folder store name) >> remove_all store names

abbrev pub checkpoint_trim : RetentionPlan → Run Disk Unit
checkpoint_trim p =
    if str_eq p.store "audit"
    then durable (λ d. record d { checkpointed = p.eligible ∷ d.checkpointed })
    else pure tt

abbrev pub is_nil : List String → Bool
is_nil [] = true
is_nil (x ∷ xs) = false

-- One round of the loop: how many directories went.
unfoldable pub apply_plan : RetentionPlan → Run Disk ℕ
unfolding remove_all ◌>>=◌
apply_plan p =
    if is_nil p.eligible
    then pure 0
    else durable (tell (started p.store p.cutoff p.eligible))
      >> (checkpoint_trim p
          >> (remove_all p.store p.eligible
              >> (durable (tell (applied p.store p.cutoff p.eligible))
                  >> pure (length p.eligible))))

-- `apply_retention`
unfoldable pub apply_retention : List RetentionPlan → Run Disk ℕ
unfolding apply_plan ◌>>=◌
apply_retention [] = pure 0
apply_retention (p ∷ ps) = apply_plan p >>= λ k. apply_retention ps >>= λ j. pure (k + j)
