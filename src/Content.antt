-- ===== src/Content.antt =====
-- dlpduck/content.py: job ids as they are checked before they go into a file name, and the files of
-- the content store and of the destinations.
pub mod Ids
pub mod Purge
pub mod Purging
use mathlib.Core.Option
use dlpduck.Prelude.{
  ℕ, zero, suc, Bool, true, false, not, ◌&&◌, ◌||◌, Option, none, some, List, [], ◌∷◌, leb, ◌==◌,
  if◌then◌else◌, keep_if, any_of,
}
use dlpduck.Document.{Text, same_text, newline}

-- `$` in a pattern without flags: the end of the text, or the newline that ends it.
abbrev pub at_end : Text → Bool
at_end [] = true
at_end (c ∷ []) = c == newline
at_end (c ∷ d ∷ rest) = false

-- [0-9a-f]
abbrev pub is_hex : ℕ → Bool
is_hex c = (leb b'0' c && leb c b'9') || (leb b'a' c && leb c b'f')

-- `n` characters of a class and then the end.
unfoldable pub match_class : (ℕ → Bool) → ℕ → Text → Bool
match_class p zero s = at_end s
match_class p (suc n) [] = false
match_class p (suc n) (c ∷ s) = p c && match_class p n s

-- `_JOB_ID_RE` and `validate_job_id`
unfoldable pub is_job_id : Text → Bool
unfolding match_class
is_job_id s = match_class is_hex 32 s

-- A file `dt=<date>/<job_id>.<suffix>` of a store.
pub record StoredFile : Type 0 where
  pub dt : ℕ
  pub stem : Text

-- The files that the glob `dt=*/<job_id>.<suffix>` finds, for an id without a wildcard.
abbrev pub is_of : Text → StoredFile → Bool
is_of job_id f = same_text f.stem job_id

-- `purge_content`; nothing where the id is refused.
unfoldable pub purge_content : List StoredFile → Text → Option (List StoredFile × Bool)
unfolding is_job_id
purge_content files job_id =
    if is_job_id job_id
    then some (keep_if (λ f. not (is_of job_id f)) files, any_of (is_of job_id) files)
    else none

-- `has_content`
unfoldable pub has_content : List StoredFile → Text → Option Bool
unfolding is_job_id
has_content files job_id = if is_job_id job_id then some (any_of (is_of job_id) files) else none

-- `purge_document`, with its loop over the roots: what is left of each, and whether any file went.
unfoldable pub purge_roots : Text → List (List StoredFile) → List (List StoredFile) × Bool
purge_roots job_id [] = ([], false)
purge_roots job_id (root ∷ roots) =
    let (left, removed) = purge_roots job_id roots in
    (keep_if (λ f. not (is_of job_id f)) root ∷ left, any_of (is_of job_id) root || removed)

unfoldable pub purge_document :
    List (List StoredFile) → Text → Option (List (List StoredFile) × Bool)
unfolding is_job_id purge_roots
purge_document roots job_id = if is_job_id job_id then some (purge_roots job_id roots) else none
