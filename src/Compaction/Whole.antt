-- ===== src/Compaction/Whole.antt =====
-- A compaction of a partition, cut anywhere or with writes enough (dlpduck/index.py).
use mathlib.Core.Path.{subst}
use dlpduck.Prelude.{
  ℕ, zero, suc, ◌+◌, ◌≤◌, ◌<◌, String, ◌≡◌, refl, ap, ◌⊎◌, inl, inr, Bool, true, false, ◌||◌,
  Option, none, some, List, [], ◌∷◌, arith, str_eq, eq_iff, is_one_of, ltb, leb, leb→le, Bool-cases,
  Option-cases, length, All,
}
use dlpduck.Run.{Progress, going, ◌>>=◌}
use dlpduck.Run.Does.{Ended}
use dlpduck.Compaction.{
  Parquet, file_names, find_file, unlink_file, put_file, rows_of, both, read_tables, unlink_sized,
  remove_merged, merged_file, compact, compact_partition,
}
use dlpduck.Compaction.Counts.{IsDistinct, find_file-unlink_file, find_file-put_file, total}
use dlpduck.Compaction.Rows.{Keeps, compact-Does}

abbrev pub Returns : {W A : Type 0} → Progress W A → Type 0
Returns {W} {A} q = (a : A) × ((j : ℕ) × ((w : W) × (q ≡ going a j w)))

abbrev is_found : {Row : Type 0} → Option (Parquet Row) → Bool
is_found none = false
is_found (some f) = true

module _ {Row : Type 0} (out : String) where
  -- A file that the loop would remove is there.
  abbrev IsThere : List (Parquet Row) → String → Type 0
  IsThere fs k = (str_eq k out || is_found (find_file k fs)) ≡ true

  unlink_file-IsThere :
      (k : String) (ks : List String) (fs : List (Parquet Row))
      → is_one_of k ks ≡ false
      → All (IsThere fs) ks
      → All (IsThere (unlink_file k fs)) ks
  unfolding is_one_of
  unlink_file-IsThere k [] fs new all = tt
  unlink_file-IsThere k (j ∷ ks) fs new all = (
    ground (arith, new, all.0, eq_iff j k, eq_iff k j, find_file-unlink_file k j fs),
    unlink_file-IsThere k ks fs (ground (arith, new)) all.1,
  )

  unread : (o : Option (List Row)) (rs : List Row) → both o none ≡ some rs → ⊥
  unread none rs h = absurd (cc h)
  unread (some ss) rs h = absurd (cc h)

  length-file_names : (fs : List (Parquet Row)) → length (file_names fs) ≡ length fs
  length-file_names [] = refl
  length-file_names (f ∷ fs) = ap suc (length-file_names fs)

  read_tables-IsThere :
      (g : Parquet Row) (ks : List String) (fs : List (Parquet Row)) (rs : List Row)
      → g.name ≡ out
      → read_tables ks fs ≡ some rs
      → All (IsThere (put_file g fs)) ks
  unfolding read_tables
  read_tables-IsThere g [] fs rs same e = tt
  read_tables-IsThere g (k ∷ ks) fs rs same e = elim (Option-cases (find_file k fs)) [
    | inl miss ↦ absurd (ground (arith, e, miss))
    | inr (f, found) ↦ elim (Option-cases (read_tables ks fs)) [
      | inl miss ↦ absurd (
          unread (rows_of (find_file k fs)) rs
            (subst (λ o. both (rows_of (find_file k fs)) o ≡ some rs) miss e))
      | inr (ts, rest) ↦ (
        ground (arith, same, found, eq_iff k g.name, eq_iff k out, find_file-put_file g k fs),
        read_tables-IsThere g ks fs ts same rest,
      )
    ]
  ]

  remove_merged-Returns :
      (ks : List String) (fs : List (Parquet Row)) (n : ℕ)
      → All (IsThere fs) ks
      → IsDistinct ks
      → length ks ≤ n
      → Returns (remove_merged out ks n fs)
  unfolding remove_merged unlink_sized ◌>>=◌
  remove_merged-Returns [] fs n all d h = (0, (n, (fs, refl)))
  remove_merged-Returns (k ∷ ks) fs zero all d h = absurd (omega (arith, h))
  remove_merged-Returns (k ∷ ks) fs (suc n) all d h = elim (Bool-cases (str_eq k out)) [
    | inl e ↦ rw e (remove_merged-Returns ks fs (suc n) all.1 d.1 (omega (arith, h)))
    | inr e ↦ elim (Option-cases (find_file k fs)) [
      | inl miss ↦ absurd (ground (arith, all.0, e, miss))
      | inr (f, found) ↦
          let (m, (j, (ds, gone))) =
            remove_merged-Returns ks (unlink_file k fs) n (unlink_file-IsThere k ks fs d.0 all.1)
              d.1 (omega (arith, h)) in
          (f.size + m, (j, (ds, rw (e, found, gone) refl)))
    ]
  ]

module _ {Row : Type 0} (merged_size : List Row → ℕ) (out : String) where
  compact_partition-Returns :
      (fs : List (Parquet Row)) (rs : List Row) (n : ℕ)
      → IsDistinct (file_names fs)
      → read_tables (file_names fs) fs ≡ some rs
      → length fs < n
      → Returns (compact_partition merged_size out n fs)
  unfolding compact_partition compact ◌>>=◌
  compact_partition-Returns fs rs zero d e h = absurd (omega (arith, h))
  compact_partition-Returns fs rs (suc n) d e h =
      elim (Bool-cases (ltb (length (file_names fs)) 2)) [
        | inl few ↦ rw few (record { freed = 0; written = 0 }, (suc n, (fs, refl)))
        | inr many ↦
            let (m, (j, (ds, gone))) =
              remove_merged-Returns out (file_names fs)
                (put_file (merged_file merged_size out rs) fs) n
                (read_tables-IsThere out (merged_file merged_size out rs) (file_names fs) fs rs refl
                  e)
                d (omega (arith, h, length-file_names out fs)) in
            (record { freed = m; written = merged_size rs }, (j, (ds, rw (many, e, gone) refl)))
      ]

  -- However a compaction is cut, or stopped by a file that cannot be read, every row of the
  -- partition is there at least as often as before and at most twice as often; when it returns, as
  -- often as before, so that rows which an earlier cut left twice stay twice. With one write more
  -- than there are files, all of them readable, it returns. The names of the files are distinct,
  -- and an earlier compaction may have left the merged file among them.
  pub compact_partition_lem :
      (fs : List (Parquet Row)) (n : ℕ) (p : Row → Bool)
      → IsDistinct (file_names fs)
      → Ended
          (Keeps p (total p fs))
          (λ r ds. total p ds ≡ total p fs)
          (compact_partition merged_size out n fs)
        × ((read_tables (file_names fs) fs ≡ none)
            ⊎ ((n ≤ length fs) ⊎ Returns (compact_partition merged_size out n fs)))
  unfolding compact_partition
  compact_partition_lem fs n p d = (
    (compact-Does p (total p fs) merged_size out fs d refl).at n fs refl,
    elim (Option-cases (read_tables (file_names fs) fs)) [
      | inl broken ↦ inl broken
      | inr (rs, e) ↦ inr (elim (Bool-cases (leb n (length fs))) [
        | inl few ↦ inl (leb→le n (length fs) few)
        | inr many ↦ inr (compact_partition-Returns fs rs n d e (ground (arith, many)))
      ])
    ],
  )
