-- ===== src/Compaction/Counts.antt =====
-- How many rows that pass a test a partition holds (dlpduck/index.py), file by file.
use dlpduck.Prelude.{
  ℕ, ◌+◌, String, ◌≡◌, refl, inl, inr, Bool, false, Option, none, some, List, [], ◌∷◌, ◌++◌, arith,
  str_eq, eq_iff, is_one_of, if◌then◌else◌, Bool-cases, Option-cases, length, keep_if,
}
use dlpduck.Compaction.{Parquet, file_names, find_file, unlink_file, put_file, read_tables}

abbrev pub IsDistinct : List String → Type 0
IsDistinct [] = Unit
IsDistinct (k ∷ ks) = (is_one_of k ks ≡ false) × IsDistinct ks

module _ {Row : Type 0} where
  pub find_file-unlink_file :
      (j k : String) (fs : List (Parquet Row))
      → str_eq k j ≡ false
      → find_file k (unlink_file j fs) ≡ find_file k fs
  unfolding find_file unlink_file
  find_file-unlink_file j k [] h = refl
  find_file-unlink_file j k (f ∷ fs) h =
      ground
        (arith, h, eq_iff k j, eq_iff f.name j, eq_iff f.name k, find_file-unlink_file j k fs h)

  pub find_file-put_file :
      (g : Parquet Row) (k : String) (fs : List (Parquet Row))
      → str_eq k g.name ≡ false
      → find_file k (put_file g fs) ≡ find_file k fs
  unfolding find_file put_file
  find_file-put_file g k [] h = ground (arith, h, eq_iff k g.name, eq_iff g.name k)
  find_file-put_file g k (f ∷ fs) h = ground (
    arith,
    h,
    eq_iff k g.name,
    eq_iff g.name k,
    eq_iff f.name g.name,
    eq_iff f.name k,
    find_file-put_file g k fs h,
  )

module _ {Row : Type 0} (p : Row → Bool) where
  abbrev pub count : List Row → ℕ
  count rs = length (keep_if p rs)

  abbrev pub count_read : Option (List Row) → ℕ
  count_read none = 0
  count_read (some rs) = count rs

  abbrev pub count_found : Option (Parquet Row) → ℕ
  count_found none = 0
  count_found (some f) = count_read f.rows

  unfoldable pub total : List (Parquet Row) → ℕ
  total [] = 0
  total (f ∷ fs) = count_read f.rows + total fs

  abbrev pub count_at : String → List (Parquet Row) → ℕ
  count_at k fs = count_found (find_file k fs)

  -- The rows under the names, one name excepted.
  unfoldable pub count_but : String → List String → List (Parquet Row) → ℕ
  unfolding find_file
  count_but out [] fs = 0
  count_but out (k ∷ ks) fs = (if str_eq k out then 0 else count_at k fs) + count_but out ks fs

  unfoldable pub count_all : List String → List (Parquet Row) → ℕ
  unfolding find_file
  count_all [] fs = 0
  count_all (k ∷ ks) fs = count_at k fs + count_all ks fs

  count-append : (rs ss : List Row) → count (rs ++ ss) ≡ count rs + count ss
  count-append [] ss = omega arith
  count-append (r ∷ rs) ss = ground (arith, count-append rs ss)

  pub total-unlink_file :
      (k : String) (fs : List (Parquet Row)) → total (unlink_file k fs) + count_at k fs ≡ total fs
  unfolding total unlink_file find_file
  total-unlink_file k [] = refl
  total-unlink_file k (f ∷ fs) = elim (Bool-cases (str_eq f.name k)) [
    | inl e ↦ rw e (omega arith)
    | inr e ↦ rw e (omega (arith, total-unlink_file k fs))
  ]

  pub total-put_file :
      (g : Parquet Row) (fs : List (Parquet Row))
      → total (put_file g fs) + count_at g.name fs ≡ total fs + count_read g.rows
  unfolding total put_file find_file
  total-put_file g [] = omega arith
  total-put_file g (f ∷ fs) = elim (Bool-cases (str_eq f.name g.name)) [
    | inl e ↦ rw e (omega arith)
    | inr e ↦ rw e (omega (arith, total-put_file g fs))
  ]

  pub count_but-unlink_file :
      (out j : String) (ks : List String) (fs : List (Parquet Row))
      → is_one_of j ks ≡ false
      → count_but out ks (unlink_file j fs) ≡ count_but out ks fs
  unfolding count_but is_one_of
  count_but-unlink_file out j [] fs h = refl
  count_but-unlink_file out j (k ∷ ks) fs h = ground (
    arith,
    h,
    eq_iff j k,
    eq_iff k j,
    find_file-unlink_file j k fs,
    count_but-unlink_file out j ks fs,
  )

  pub count_but-put_file :
      (g : Parquet Row) (ks : List String) (fs : List (Parquet Row))
      → count_but g.name ks (put_file g fs) ≡ count_but g.name ks fs
  unfolding count_but
  count_but-put_file g [] fs = refl
  count_but-put_file g (k ∷ ks) fs = elim (Bool-cases (str_eq k g.name)) [
    | inl e ↦ rw (e, count_but-put_file g ks fs) refl
    | inr e ↦ rw (e, find_file-put_file g k fs e, count_but-put_file g ks fs) refl
  ]

  pub count_all-read_tables :
      (ks : List String) (fs : List (Parquet Row)) (rs : List Row)
      → read_tables ks fs ≡ some rs
      → count rs ≡ count_all ks fs
  unfolding read_tables count_all
  count_all-read_tables [] fs rs h = ground (arith, h)
  count_all-read_tables (k ∷ ks) fs rs h = elim (Option-cases (find_file k fs)) [
    | inl e ↦ absurd (ground (arith, h, e))
    | inr (f, e) ↦ elim (Option-cases f.rows) [
      | inl e' ↦ absurd (ground (arith, h, e, e'))
      | inr (ss, e') ↦ elim (Option-cases (read_tables ks fs)) [
        | inl t ↦ absurd (ground (arith, h, e, e', t))
        | inr (ts, t) ↦
            ground (arith, h, e, e', t, count-append ss ts, count_all-read_tables ks fs ts t)
      ]
    ]
  ]

  count_all-cons :
      (f : Parquet Row) (ks : List String) (fs : List (Parquet Row))
      → is_one_of f.name ks ≡ false
      → count_all ks (f ∷ fs) ≡ count_all ks fs
  unfolding count_all find_file is_one_of
  count_all-cons f [] fs h = refl
  count_all-cons f (k ∷ ks) fs h = ground (arith, h, count_all-cons f ks fs)

  -- The names of the files, each once, account for all the rows.
  pub count_all-file_names :
      (fs : List (Parquet Row))
      → IsDistinct (file_names fs)
      → count_all (file_names fs) fs ≡ total fs
  unfolding count_all total find_file is_one_of
  count_all-file_names [] d = refl
  count_all-file_names (f ∷ fs) d =
      rw (count_all-cons f (file_names fs) fs d.0, count_all-file_names fs d.1)
        (ground (arith, eq_iff f.name f.name))

  pub count_but_lem :
      (out : String) (ks : List String) (fs : List (Parquet Row))
      → IsDistinct ks
      → count_but out ks fs + (if is_one_of out ks then count_at out fs else 0) ≡ count_all ks fs
  unfolding count_but count_all is_one_of
  count_but_lem out [] fs d = refl
  count_but_lem out (k ∷ ks) fs d =
      ground (arith, d.0, eq_iff k out, eq_iff out k, count_but_lem out ks fs d.1)
