-- ===== src/Compaction/Rows.antt =====
-- What a compaction keeps, wherever it is cut (dlpduck/index.py, `compact_partition`).
use dlpduck.Prelude.{
  ℕ, ◌+◌, ◌≤◌, String, ◌≡◌, refl, Bool, false, Option, none, some, List, [], ◌∷◌, arith, str_eq,
  eq_iff, is_one_of, ltb, length,
}
use dlpduck.Run.Does.{
  Does, Does-pure, Does-raise, Does-gets, Does-if, Does-durable, Does-bind, Does-weaken, Does-given,
}
use dlpduck.Compaction.{
  Parquet, file_names, find_file, unlink_file, put_file, read_tables, unlink_found, unlink_sized,
  remove_merged, merged_file, write_merged, compact,
}
use dlpduck.Compaction.Counts.{
  IsDistinct, total, count_but, total-unlink_file, total-put_file, count_but-unlink_file,
  count_but-put_file, count_all-read_tables, count_all-file_names, count_but_lem,
}

module _ {Row : Type 0} (p : Row → Bool) (before : ℕ) where
  -- No row is lost, and none is there more than twice as often.
  abbrev pub Keeps : List (Parquet Row) → Type 0
  Keeps fs = (before ≤ total p fs) × (total p fs ≤ before + before)

  -- The files under the names, one excepted, are what is there twice.
  abbrev Doubled : String → List String → List (Parquet Row) → Type 0
  Doubled out ks fs =
      (total p fs ≡ before + count_but p out ks fs) × (count_but p out ks fs ≤ before)

  removed :
      (out k : String) (ks : List String) (fs : List (Parquet Row))
      → is_one_of k ks ≡ false
      → str_eq k out ≡ false
      → Doubled out (k ∷ ks) fs
      → Doubled out ks (unlink_file k fs)
  unfolding count_but
  removed out k ks fs new other h =
      rw (count_but-unlink_file p out k ks fs new)
        (ground (arith, h, other, total-unlink_file p k fs))

  unlink_found-Does :
      (out k : String) (ks : List String) (found : Option (Parquet Row))
      → is_one_of k ks ≡ false
      → str_eq k out ≡ false
      → Does Keeps (Doubled out (k ∷ ks)) (unlink_found k found) (λ n. Doubled out ks)
  unlink_found-Does out k ks none new other = Does-raise _ (λ fs h. ground (arith, h))
  unlink_found-Does out k ks (some f) new other =
      Does-bind {Mid = λ u. Doubled out ks} _ _
        (Does-durable _ (λ fs h. ground (arith, h)) (λ fs h. removed out k ks fs new other h))
        (λ u. Does-pure f.size (λ fs h. h))

  unlink_sized-Does :
      (out k : String) (ks : List String)
      → is_one_of k ks ≡ false
      → str_eq k out ≡ false
      → Does Keeps (Doubled out (k ∷ ks)) (unlink_sized k) (λ n. Doubled out ks)
  unfolding unlink_sized
  unlink_sized-Does out k ks new other =
      Does-bind {Mid = λ f. Doubled out (k ∷ ks)} _ _ (Does-gets (find_file k) (λ fs h. h))
        (λ f. unlink_found-Does out k ks f new other)

  remove_merged-Does :
      (out : String) (ks : List String)
      → IsDistinct ks
      → Does Keeps (Doubled out ks) (remove_merged out ks) (λ n fs. total p fs ≡ before)
  unfolding remove_merged count_but
  remove_merged-Does out [] d = Does-pure 0 (λ fs h. ground (arith, h))
  remove_merged-Does out (k ∷ ks) d =
      Does-if (str_eq k out) _ _
        (λ e. Does-weaken (λ fs h. ground (arith, e, h)) (remove_merged-Does out ks d.1))
        (λ e. Does-bind {Mid = λ n. Doubled out ks} _ _ (unlink_sized-Does out k ks d.0 e) (λ n.
          Does-bind {Mid = λ m fs. total p fs ≡ before} _ _ (remove_merged-Does out ks d.1)
            (λ m. Does-pure (n + m) (λ fs h. h))))

  unlisted :
      (out : String) (fs : List (Parquet Row))
      → is_one_of out (file_names fs) ≡ false
      → find_file out fs ≡ none
  unfolding is_one_of find_file
  unlisted out [] h = refl
  unlisted out (f ∷ fs) h = ground (arith, h, eq_iff out f.name, eq_iff f.name out, unlisted out fs)

  doubled :
      (merged_size : List Row → ℕ) (out : String) (fs : List (Parquet Row)) (rs : List Row)
      → IsDistinct (file_names fs)
      → total p fs ≡ before
      → read_tables (file_names fs) fs ≡ some rs
      → Doubled out (file_names fs) (put_file (merged_file merged_size out rs) fs)
  doubled merged_size out fs rs d same e =
      rw (count_but-put_file p (merged_file merged_size out rs) (file_names fs) fs) (
        ground (
          arith,
          same,
          total-put_file p (merged_file merged_size out rs) fs,
          count_all-read_tables p (file_names fs) fs rs e,
          count_all-file_names p fs d,
          count_but_lem p out (file_names fs) fs d,
          unlisted out fs,
        ))

  write_merged-Does :
      (merged_size : List Row → ℕ) (out : String) (fs : List (Parquet Row))
      (read : Option (List Row))
      → IsDistinct (file_names fs)
      → total p fs ≡ before
      → read_tables (file_names fs) fs ≡ read
      → Does Keeps
          (λ ds. ds ≡ fs)
          (write_merged merged_size out (file_names fs) read)
          (λ r ds. total p ds ≡ before)
  write_merged-Does merged_size out fs none d same e =
      Does-raise _ (λ ds h. rw (h, same) (omega arith))
  write_merged-Does merged_size out fs (some rs) d same e =
      Does-bind {Mid = λ u. Doubled out (file_names fs)} _ _
        (Does-durable _ (λ ds h. rw (h, same) (omega arith))
          (λ ds h. rw h (doubled merged_size out fs rs d same e)))
        (λ u.
          Does-bind {Mid = λ m ds. total p ds ≡ before} _ _
            (remove_merged-Does out (file_names fs) d) (λ m. Does-pure _ (λ ds h. h)))

  pub compact-Does :
      (merged_size : List Row → ℕ) (out : String) (fs : List (Parquet Row))
      → IsDistinct (file_names fs)
      → total p fs ≡ before
      → Does Keeps
          (λ ds. ds ≡ fs)
          (compact merged_size out (file_names fs))
          (λ r ds. total p ds ≡ before)
  unfolding compact
  compact-Does merged_size out fs d same =
      Does-if (ltb (length (file_names fs)) 2) _ _ (λ e. Does-pure _ (λ ds h. rw h same))
        (λ e.
          Does-bind {Mid = λ read ds. (ds ≡ fs) × (read_tables (file_names fs) fs ≡ read)} _ _
            (Does-gets _ (λ ds h. (h, rw h refl)))
            (λ read. Does-given (write_merged-Does merged_size out fs read d same)))
