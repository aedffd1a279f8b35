-- ===== src/Compaction.antt =====
-- The compaction of the metadata index (dlpduck/index.py). What pyarrow makes of a file is its
-- rows; a file that it cannot read raises.
pub mod Counts
pub mod Rows
pub mod Whole
use dlpduck.Prelude.{
  ℕ, ◌+◌, String, Bool, not, ◌&&◌, Option, none, some, List, [], ◌∷◌, ◌++◌, map, str_eq, ltb,
  if◌then◌else◌, length, keep_if,
}
use dlpduck.Run.{Run, pure, raise, gets, durable, ◌>>=◌, ◌>>◌}

-- A Parquet file of a partition: its name, what `read_table` gives, and its size.
pub record Parquet (Row : Type 0) : Type 0 where
  pub name : String
  pub rows : Option (List Row)
  pub size : ℕ

-- A directory under the root of the index.
pub record Partition (Row : Type 0) : Type 0 where
  pub name : String
  pub is_dir : Bool
  pub files : List (Parquet Row)

pub record CompactionPlan (Row : Type 0) : Type 0 where
  pub partition : Partition Row
  pub files : List String
  pub bytes_before : ℕ

-- What _compact returns: the bytes of the files that went, less those of the file that came.
pub record Reclaimed : Type 0 where
  pub freed : ℕ
  pub written : ℕ

module _ {Row : Type 0} where
  abbrev pub file_names : List (Parquet Row) → List String
  file_names fs = map (λ (f : Parquet Row). f.name) fs

  abbrev pub total_size : List (Parquet Row) → ℕ
  total_size [] = 0
  total_size (f ∷ fs) = f.size + total_size fs

  -- worth_doing
  abbrev pub is_worth_doing : CompactionPlan Row → Bool
  is_worth_doing p = ltb 1 (length p.files)

  abbrev plan_partition : Partition Row → CompactionPlan Row
  plan_partition d = record {
    partition = d;
    files = file_names d.files;
    bytes_before = total_size d.files;
  }

  -- `plan_compaction`, over the directories and their files in the order of their names; `skip` is
  -- the name of today's partition.
  unfoldable pub plan_compaction : String → List (Partition Row) → List (CompactionPlan Row)
  plan_compaction skip ds = keep_if is_worth_doing (
      map plan_partition (keep_if (λ (d : Partition Row). d.is_dir && not (str_eq d.name skip)) ds))

  unfoldable pub find_file : String → List (Parquet Row) → Option (Parquet Row)
  find_file k [] = none
  find_file k (f ∷ fs) = if str_eq f.name k then some f else find_file k fs

  unfoldable pub unlink_file : String → List (Parquet Row) → List (Parquet Row)
  unlink_file k [] = []
  unlink_file k (f ∷ fs) = if str_eq f.name k then fs else f ∷ unlink_file k fs

  unfoldable pub put_file : Parquet Row → List (Parquet Row) → List (Parquet Row)
  put_file g [] = g ∷ []
  put_file g (f ∷ fs) = if str_eq f.name g.name then g ∷ fs else f ∷ put_file g fs

  abbrev pub rows_of : Option (Parquet Row) → Option (List Row)
  rows_of none = none
  rows_of (some f) = f.rows

  abbrev pub both : Option (List Row) → Option (List Row) → Option (List Row)
  both none rest = none
  both (some rs) none = none
  both (some rs) (some ss) = some (rs ++ ss)

  -- concat_tables over read_table of each file, or none where a file is missing or unreadable
  unfoldable pub read_tables : List String → List (Parquet Row) → Option (List Row)
  unfolding find_file
  read_tables [] fs = some []
  read_tables (k ∷ ks) fs = both (rows_of (find_file k fs)) (read_tables ks fs)

  abbrev pub unlink_found : String → Option (Parquet Row) → Run (List (Parquet Row)) ℕ
  unlink_found k none = raise "FileNotFoundError"
  unlink_found k (some f) = durable (unlink_file k) >> pure f.size

  -- path.stat().st_size and path.unlink()
  unfoldable pub unlink_sized : String → Run (List (Parquet Row)) ℕ
  unfolding ◌>>=◌ find_file unlink_file
  unlink_sized k = gets (find_file k) >>= unlink_found k

  -- The loop over plan.files, and how many bytes went.
  unfoldable pub remove_merged : String → List String → Run (List (Parquet Row)) ℕ
  unfolding unlink_sized
  remove_merged out [] = pure 0
  remove_merged out (k ∷ ks) =
      let rest = remove_merged out ks in
      if str_eq k out then rest else unlink_sized k >>= λ n. rest >>= λ m. pure (n + m)

  -- `merged_size` is the size that the Parquet writer makes of the rows.
  module _ (merged_size : List Row → ℕ) where
    abbrev pub merged_file : String → List Row → Parquet Row
    merged_file out rs = record { name = out; rows = some rs; size = merged_size rs }

    abbrev pub write_merged :
        String → List String → Option (List Row) → Run (List (Parquet Row)) Reclaimed
    write_merged out ks none = raise "ArrowInvalid"
    write_merged out ks (some rs) =
        durable (put_file (merged_file out rs))
        >> (remove_merged out ks >>= λ n. pure (record { freed = n; written = merged_size rs }))

    -- `_compact`, which reads all the files, makes the merged one visible at once, and then removes
    -- the others.
    unfoldable pub compact : String → List String → Run (List (Parquet Row)) Reclaimed
    unfolding read_tables put_file remove_merged ◌>>=◌
    compact out ks =
        if ltb (length ks) 2
        then pure (record { freed = 0; written = 0 })
        else gets (read_tables ks) >>= write_merged out ks

    -- `compact_partition` under the lock, which lists the partition again
    unfoldable pub compact_partition : String → Run (List (Parquet Row)) Reclaimed
    unfolding compact
    compact_partition out = gets file_names >>= compact out
