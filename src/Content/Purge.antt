-- ===== src/Content/Purge.antt =====
-- What a purge removes and what it leaves (dlpduck/content.py).
use dlpduck.Prelude.{
  ◌≡◌, refl, ap, inl, inr, Bool, true, false, not, some, List, [], ◌∷◌, arith, Bool-cases, keep_if,
  any_of,
}
use dlpduck.Document.Equality.{same_text-same}
use dlpduck.Document.{Text, same_text}
use dlpduck.Content.{is_job_id, StoredFile, is_of, purge_content, has_content}

any_of-keep_if_none {ℓ} :
    {A : Type ℓ} (p : A → Bool) (xs : List A) → any_of p (keep_if (λ x. not (p x)) xs) ≡ false
any_of-keep_if_none p [] = refl
any_of-keep_if_none p (x ∷ xs) = elim (Bool-cases (p x)) [
  | inl e ↦ rw e (any_of-keep_if_none p xs)
  | inr e ↦ rw (e, e) (any_of-keep_if_none p xs)
]

keep_if_all {ℓ} :
    {A : Type ℓ} (p : A → Bool) (xs : List A)
    → any_of p xs ≡ false
    → keep_if (λ x. not (p x)) xs ≡ xs
keep_if_all p [] h = refl
keep_if_all p (x ∷ xs) h = elim (Bool-cases (p x)) [
  | inl e ↦ ground arith
  | inr e ↦ rw e (ap (λ ys. x ∷ ys) (keep_if_all p xs (ground arith)))
]

-- A file of another job is no file of this one.
other_kept :
    (job other : Text) (files : List StoredFile)
    → same_text job other ≡ false
    → keep_if (is_of other) (keep_if (λ f. not (is_of job f)) files) ≡ keep_if (is_of other) files
other_kept job other [] h = refl
other_kept job other (f ∷ files) h = elim (Bool-cases (is_of job f)) [
  | inl e ↦
      let named : f.stem ≡ job = same_text-same f.stem job e in
      let not_other : is_of other f ≡ false = rw named h in
      rw (e, not_other) (other_kept job other files h)
  | inr e ↦ rw (e, other_kept job other files h) refl
]

-- A purge of a job's content that is done leaves no file of that job and, of any other job, just
-- the files that there were; it says whether there was one of that job. The same purge once more
-- changes nothing and says that there was none.
pub purge_content_lem :
    (files left : List StoredFile) (job other : Text) (removed : Bool)
    → purge_content files job ≡ some (left, removed)
    → same_text job other ≡ false
    → (has_content left job ≡ some false)
      × (has_content files job ≡ some removed)
      × (keep_if (is_of other) left ≡ keep_if (is_of other) files)
      × (purge_content left job ≡ some (left, false))
unfolding purge_content has_content
purge_content_lem files left job other removed h n =
    let kept : keep_if (λ f. not (is_of job f)) files ≡ left = ground arith in
    let known : any_of (is_of job) files ≡ removed = ground arith in
    let valid : is_job_id job ≡ true = ground arith in
    let gone : any_of (is_of job) left ≡ false =
      rw (← kept) (any_of-keep_if_none (is_of job) files) in
    (
      rw (valid, gone) refl,
      rw (valid, known) refl,
      rw (← kept) (other_kept job other files n),
      rw (valid, gone, keep_if_all (is_of job) left gone) refl,
    )
