-- ===== src/Watcher/Poll.antt =====
-- What one poll does to one file: `discover_ready` (dlpduck/watcher.py).
use dlpduck.Prelude.{
  ℕ, String, ◌≡◌, refl, sym, ◌∙◌, Bool, true, false, ◌||◌, Option, none, some, List, [], ◌∷◌, ◌++◌,
  map, arith, str_eq, eq_iff, if◌then◌else◌, keep_if, any_of,
}
use dlpduck.Watcher.{
  Naming, Entry, Source, accepts, Listing, put_entry, list_into, list_names, insert_sorted,
  sort_names, candidates, companion, Tracked, Tracking, Verdict, waiting, ready, check_file, visit,
  visit_all, is_named, discover_ready,
}

-- No two candidates have the same name.
abbrev pub IsDistinct : List Entry → Type 0
IsDistinct [] = Unit
IsDistinct (e ∷ es) = (any_of (is_named e.name) es ≡ false) × IsDistinct es

-- Every file of a listing stands under its own name in lower case, and each key once.
abbrev Keyed : Naming → Listing → Type 0
Keyed py [] = Unit
Keyed py ((k, e) ∷ m) =
    (k ≡ py.lower e.name) × (any_of (λ (p : String × Entry). str_eq p.0 k) m ≡ false) × Keyed py m

abbrev has_key : String → Listing → Bool
has_key k m = any_of (λ (p : String × Entry). str_eq p.0 k) m

has_key-put_entry :
    (i k : String) (e : Entry) (m : Listing)
    → has_key i (put_entry k e m) ≡ (str_eq k i || has_key i m)
has_key-put_entry i k e [] = refl
has_key-put_entry i k e ((j, f) ∷ m) =
    ground (arith, eq_iff j k, eq_iff j i, eq_iff k i, has_key-put_entry i k e m)

put_entry-Keyed :
    (py : Naming) (e : Entry) (m : Listing)
    → Keyed py m
    → Keyed py (put_entry (py.lower e.name) e m)
put_entry-Keyed py e [] h = (refl, refl, tt)
put_entry-Keyed py e ((j, f) ∷ m) h = ground (
  arith,
  eq_iff j (py.lower e.name),
  eq_iff (py.lower e.name) j,
  has_key-put_entry j (py.lower e.name) e m,
  put_entry-Keyed py e m h.2,
)

list_into-Keyed :
    (py : Naming) (es : List Entry) (m : Listing) → Keyed py m → Keyed py (list_into py m es)
list_into-Keyed py [] m h = h
list_into-Keyed py (e ∷ es) m h =
    list_into-Keyed py es (put_entry (py.lower e.name) e m) (put_entry-Keyed py e m h)

abbrev accepted : Naming → Source → Listing → List Entry
accepted py cfg m =
    keep_if (λ (e : Entry). accepts py cfg e.name) (map (λ (p : String × Entry). p.1) m)

accepted-missing :
    (py : Naming) (cfg : Source) (n : String) (m : Listing)
    → Keyed py m
    → has_key (py.lower n) m ≡ false
    → any_of (is_named n) (accepted py cfg m) ≡ false
accepted-missing py cfg n [] h none_there = refl
accepted-missing py cfg n ((k, e) ∷ m) h none_there =
    ground (arith, h.0, eq_iff e.name n, eq_iff k (py.lower n), accepted-missing py cfg n m h.2)

accepted-IsDistinct :
    (py : Naming) (cfg : Source) (m : Listing) → Keyed py m → IsDistinct (accepted py cfg m)
accepted-IsDistinct py cfg [] h = tt
accepted-IsDistinct py cfg ((k, e) ∷ m) h = ground (
  arith,
  accepted-missing py cfg e.name m h.2 (rw (sym h.0) h.1),
  accepted-IsDistinct py cfg m h.2,
)

any_of-insert_sorted :
    (py : Naming) (p : Entry → Bool) (e : Entry) (es : List Entry)
    → any_of p (insert_sorted py e es) ≡ (p e || any_of p es)
any_of-insert_sorted py p e [] = refl
any_of-insert_sorted py p e (f ∷ fs) = ground (arith, any_of-insert_sorted py p e fs)

pub any_of-sort_names :
    (py : Naming) (p : Entry → Bool) (es : List Entry) → any_of p (sort_names py es) ≡ any_of p es
any_of-sort_names py p [] = refl
any_of-sort_names py p (e ∷ es) =
    ground (arith, any_of-sort_names py p es, any_of-insert_sorted py p e (sort_names py es))

insert_sorted-IsDistinct :
    (py : Naming) (e : Entry) (es : List Entry)
    → any_of (is_named e.name) es ≡ false
    → IsDistinct es
    → IsDistinct (insert_sorted py e es)
insert_sorted-IsDistinct py e [] h d = (refl, tt)
insert_sorted-IsDistinct py e (f ∷ fs) h d = ground (
  arith,
  eq_iff f.name e.name,
  eq_iff e.name f.name,
  any_of-insert_sorted py (is_named f.name) e fs,
  insert_sorted-IsDistinct py e fs,
)

sort_names-IsDistinct :
    (py : Naming) (es : List Entry) → IsDistinct es → IsDistinct (sort_names py es)
sort_names-IsDistinct py [] d = tt
sort_names-IsDistinct py (e ∷ es) d =
    insert_sorted-IsDistinct py e (sort_names py es)
      (any_of-sort_names py (is_named e.name) es ∙ d.0) (sort_names-IsDistinct py es d.1)

pub candidates-IsDistinct :
    (py : Naming) (cfg : Source) (folder : List Entry)
    → IsDistinct (candidates py cfg (list_names py folder))
unfolding candidates list_names
candidates-IsDistinct py cfg folder =
    sort_names-IsDistinct py _ (accepted-IsDistinct py cfg _ (list_into-Keyed py folder [] tt))

-- The candidate of a name.
abbrev pub find_named : String → List Entry → Option Entry
find_named n [] = none
find_named n (e ∷ es) = if is_named n e then some e else find_named n es

-- What a poll reports of a name, with the companion.
abbrev pub taken : String → List (Entry × Option Entry) → Option (Option Entry)
taken n [] = none
taken n ((e, beside) ∷ rs) = if is_named n e then some beside else taken n rs

abbrev pub settle : Verdict → Option (Option Entry) × Option Tracked
settle (waiting t) = (none, some t)
settle (ready beside) = (some beside, none)

-- What a poll reports of one file, and how it tracks it.
abbrev pub outcome_at :
    Naming
    → Source
    → Listing
    → Entry
    → Option ℕ
    → Option Tracked
    → Option (Option Entry) × Option Tracked
outcome_at py cfg listing e none prev = (none, prev)
outcome_at py cfg listing e (some size) prev =
    settle (check_file cfg (companion py cfg listing e) size prev)

abbrev pub outcome :
    Naming → Source → Listing → Entry → Option Tracked → Option (Option Entry) × Option Tracked
outcome py cfg listing e prev = outcome_at py cfg listing e e.st_size prev

abbrev pub outcome_of :
    Naming
    → Source
    → Listing
    → Option Entry
    → Option Tracked
    → Option (Option Entry) × Option Tracked
outcome_of py cfg listing none prev = (none, none)
outcome_of py cfg listing (some e) prev = outcome py cfg listing e prev

module _ (py : Naming) (cfg : Source) (listing : Listing) (n : String) where
  visit-own :
      (e : Entry) (m : Tracking)
      → is_named n e ≡ true
      → (taken n (visit py cfg listing e m).0 ≡ (outcome py cfg listing e (m n)).0)
        × ((visit py cfg listing e m).1 n ≡ (outcome py cfg listing e (m n)).1)
  unfolding visit
  visit-own e m h = ground (arith, eq_iff e.name n)

  visit-other :
      (e : Entry) (m : Tracking)
      → is_named n e ≡ false
      → (taken n (visit py cfg listing e m).0 ≡ none) × ((visit py cfg listing e m).1 n ≡ m n)
  unfolding visit
  visit-other e m h = ground (arith, eq_iff e.name n)

  taken-append :
      (rs ss : List (Entry × Option Entry))
      → taken n (rs ++ ss) ≡ elim (taken n rs) [ none ↦ taken n ss | some beside ↦ some beside ]
  taken-append [] ss = refl
  taken-append ((e, beside) ∷ rs) ss = ground (arith, taken-append rs ss)

  visit_all-other :
      (es : List Entry) (m : Tracking)
      → any_of (is_named n) es ≡ false
      → (taken n (visit_all py cfg listing es m).0 ≡ none)
        × ((visit_all py cfg listing es m).1 n ≡ m n)
  unfolding visit_all
  visit_all-other [] m h = (refl, refl)
  visit_all-other (e ∷ es) m h = ground (
    arith,
    visit-other e m,
    taken-append (visit py cfg listing e m).0
        (visit_all py cfg listing es (visit py cfg listing e m).1).0,
    visit_all-other es (visit py cfg listing e m).1,
  )

  visit_all-file :
      (e : Entry) (es : List Entry) (m : Tracking)
      → IsDistinct es
      → find_named n es ≡ some e
      → (taken n (visit_all py cfg listing es m).0 ≡ (outcome py cfg listing e (m n)).0)
        × ((visit_all py cfg listing es m).1 n ≡ (outcome py cfg listing e (m n)).1)
  unfolding visit_all
  visit_all-file e [] m d h = ground arith
  visit_all-file e (f ∷ es) m d h = ground (
    arith,
    eq_iff f.name n,
    eq_iff n f.name,
    visit-own f m,
    visit-other f m,
    taken-append (visit py cfg listing f m).0
        (visit_all py cfg listing es (visit py cfg listing f m).1).0,
    visit_all-other es (visit py cfg listing f m).1,
    visit_all-file e es (visit py cfg listing f m).1,
  )

  find_named-missing : (es : List Entry) → find_named n es ≡ none → any_of (is_named n) es ≡ false
  find_named-missing [] h = refl
  find_named-missing (e ∷ es) h = ground (arith, find_named-missing es)

  find_named-found :
      (e : Entry) (es : List Entry) → find_named n es ≡ some e → any_of (is_named n) es ≡ true
  find_named-found e [] h = ground arith
  find_named-found e (f ∷ es) h = ground (arith, find_named-found e es)

-- The candidate of a name in a folder.
abbrev pub candidate_of : Naming → Source → String → List Entry → Option Entry
candidate_of py cfg n folder = find_named n (candidates py cfg (list_names py folder))

pub discover_ready-file :
    (py : Naming) (cfg : Source) (n : String) (folder : List Entry) (o : Option Entry)
    (m : Tracking)
    → candidate_of py cfg n folder ≡ o
    → (taken n (discover_ready py cfg folder m).0
        ≡ (outcome_of py cfg (list_names py folder) o (m n)).0)
      × ((discover_ready py cfg folder m).1 n
          ≡ (outcome_of py cfg (list_names py folder) o (m n)).1)
unfolding discover_ready
discover_ready-file py cfg n folder none m h =
    let gone =
      find_named-missing py cfg (list_names py folder) n (candidates py cfg (list_names py folder))
        h in
    ground (
      arith,
      gone,
      visit_all-other py cfg (list_names py folder) n (candidates py cfg (list_names py folder)) m
          gone,
    )
discover_ready-file py cfg n folder (some e) m h = ground (
  arith,
  find_named-found py cfg (list_names py folder) n e (candidates py cfg (list_names py folder)) h,
  visit_all-file py cfg (list_names py folder) n e (candidates py cfg (list_names py folder)) m
      (candidates-IsDistinct py cfg folder) h,
)
