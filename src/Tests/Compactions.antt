-- ===== src/Tests/Compactions.antt =====
-- The compaction of a partition, on concrete inputs.
use dlpduck.Prelude.{
  ℕ, ◌≤◌, String, ◌≡◌, refl, ◌⊎◌, true, none, some, List, [], ◌∷◌, map, is_one_of, ◌==◌, length,
}
use dlpduck.Run.{going, ◌>>=◌}
use dlpduck.Run.Does.{Ended}
use dlpduck.Compaction.{
  Parquet, CompactionPlan, file_names, plan_compaction, find_file, unlink_file, put_file,
  read_tables, unlink_sized, remove_merged, compact, compact_partition,
}
use dlpduck.Compaction.Counts.{total}
use dlpduck.Compaction.Rows.{Keeps}
use dlpduck.Compaction.Whole.{Returns, compact_partition_lem}

abbrev file_of : String → List ℕ → Parquet ℕ
file_of k rs = record { name = k; rows = some rs; size = 9 }

abbrev of_day : List (Parquet ℕ)
of_day =
    file_of "compacted" (1 ∷ 2 ∷ []) ∷ file_of "a_0001" (1 ∷ []) ∷ file_of "b_0001" (3 ∷ []) ∷ []

-- The rows that an earlier cut left twice are twice in the merged file.
after_cut :
    compact_partition length "compacted" 4 of_day
    ≡ going
        (record { freed = 18; written = 4 })
        1
        (record { name = "compacted"; rows = some (1 ∷ 2 ∷ 1 ∷ 3 ∷ []); size = 4 } ∷ [])
unfolding compact_partition compact read_tables find_file put_file remove_merged unlink_sized
    unlink_file ◌>>=◌
after_cut = refl

planned :
    map
      (λ (p : CompactionPlan ℕ). p.partition.name)
      (plan_compaction "dt=3" (
        record { name = "dt=1"; is_dir = true; files = of_day }
        ∷ record { name = "dt=2"; is_dir = true; files = file_of "c" [] ∷ [] }
        ∷ record { name = "dt=3"; is_dir = true; files = of_day }
        ∷ []))
    ≡ "dt=1" ∷ []
unfolding plan_compaction
planned = refl

compact_partition_lem_example :
    Ended
      (Keeps (λ r. r == 1) (total (λ r. r == 1) of_day))
      (λ r ds. total (λ r. r == 1) ds ≡ total (λ r. r == 1) of_day)
      (compact_partition length "compacted" 4 of_day)
    × ((read_tables (file_names of_day) of_day ≡ none)
        ⊎ ((4 ≤ length of_day) ⊎ Returns (compact_partition length "compacted" 4 of_day)))
unfolding is_one_of
compact_partition_lem_example =
    compact_partition_lem length "compacted" of_day 4 (λ r. r == 1) (refl, (refl, (refl, tt)))
