-- ===== src/Rules/Loading/Ends.antt =====
-- Loading a ruleset comes to an end, and gives each id once (dlpduck/rules.py, `load_ruleset`).
use dlpduck.Prelude.{
  ℕ, zero, suc, ◌≤◌, ◌<◌, String, ◌≡◌, refl, ap, inl, inr, false, not, ◌||◌, Option, none, some,
  List, [], ◌∷◌, arith, str_eq, eq_iff, Bool-cases, Option-cases, length, keep_if, any_of,
}
use dlpduck.Rules.Loading.{
  Entry, include, rule_entry, unhashable_id, not_a_mapping, RuleFile, rule_list, not_iterable,
  no_mapping, Collected, Loaded, collected, refused, raises_type_error, no_fuel, collect, find_file,
  in_chain, and_then, visit_include, add_rule, process_entries, enter_file, load_ruleset,
}

module _ {C : Type 0} where
  -- Every id stands once.
  abbrev pub IsUnique : Collected C → Type 0
  IsUnique [] = Unit
  IsUnique ((rid, c) ∷ rs) = (any_of (λ (e : String × C). str_eq e.0 rid) rs ≡ false) × IsUnique rs

  -- Loading has ended: with rules of distinct ids, with an error of the configuration,
  -- or with a `TypeError`.
  abbrev pub IsLoaded : Loaded C → Type 0
  IsLoaded (collected rs) = IsUnique rs
  IsLoaded (refused e) = Unit
  IsLoaded raises_type_error = Unit
  IsLoaded no_fuel = ⊥

  any_of-collect :
      (i rid : String) (c : C) (rs : Collected C)
      → any_of (λ (e : String × C). str_eq e.0 i) (collect rid c rs)
        ≡ (str_eq rid i || any_of (λ (e : String × C). str_eq e.0 i) rs)
  any_of-collect i rid c [] = refl
  any_of-collect i rid c ((j, d) ∷ rs) =
      ground (arith, eq_iff j rid, eq_iff j i, eq_iff rid i, any_of-collect i rid c rs)

  collect-IsUnique :
      (rid : String) (c : C) (rs : Collected C) → IsUnique rs → IsUnique (collect rid c rs)
  collect-IsUnique rid c [] h = (refl, tt)
  collect-IsUnique rid c ((j, d) ∷ rs) h =
      ground (
        arith,
        eq_iff j rid,
        eq_iff rid j,
        any_of-collect j rid c rs,
        collect-IsUnique rid c rs h.1,
      )

  module _ (resolve_include : String → String → Option String) (parent : String → String) where
    Ends : (String → Collected C → Loaded C) → Type 0
    Ends enter = (p : String) (rs : Collected C) → IsUnique rs → IsLoaded (enter p rs)

    and_then-IsLoaded :
        (o : Loaded C) (k : Collected C → Loaded C)
        → IsLoaded o
        → ((rs : Collected C) → IsUnique rs → IsLoaded (k rs))
        → IsLoaded (and_then resolve_include parent o k)
    and_then-IsLoaded (collected rs) k h f = f rs h
    and_then-IsLoaded (refused e) k h f = tt
    and_then-IsLoaded raises_type_error k h f = tt
    and_then-IsLoaded no_fuel k h f = h

    add_rule-IsLoaded :
        (rid : Option String) (c : C) (rs : Collected C)
        → IsUnique rs
        → IsLoaded (add_rule resolve_include parent rid c rs)
    add_rule-IsLoaded none c rs h = tt
    add_rule-IsLoaded (some rid) c rs h = elim (Bool-cases (str_eq rid "")) [
      | inl e ↦ rw e tt
      | inr e ↦ rw e (collect-IsUnique rid c rs h)
    ]

    visit_include-IsLoaded :
        (enter : String → Collected C → Loaded C) (o : Option String) (rs : Collected C)
        → Ends enter
        → IsUnique rs
        → IsLoaded (visit_include resolve_include parent enter o rs)
    unfolding Ends
    visit_include-IsLoaded enter none rs f h = tt
    visit_include-IsLoaded enter (some p) rs f h = f p rs h

    process_entries-IsLoaded :
        (enter : String → Collected C → Loaded C) (relative_to : String) (items : List (Entry C))
        (rs : Collected C)
        → Ends enter
        → IsUnique rs
        → IsLoaded (process_entries resolve_include parent enter relative_to items rs)
    unfolding process_entries
    process_entries-IsLoaded enter relative_to [] rs f h = h
    process_entries-IsLoaded enter relative_to (include s ∷ items) rs f h =
        and_then-IsLoaded
          (visit_include resolve_include parent enter (resolve_include s relative_to) rs) _
          (visit_include-IsLoaded enter (resolve_include s relative_to) rs f h)
          (λ rs' h'. process_entries-IsLoaded enter relative_to items rs' f h')
    process_entries-IsLoaded enter relative_to (rule_entry rid c ∷ items) rs f h =
        and_then-IsLoaded (add_rule resolve_include parent rid c rs) _
          (add_rule-IsLoaded rid c rs h)
          (λ rs' h'. process_entries-IsLoaded enter relative_to items rs' f h')
    process_entries-IsLoaded enter relative_to (unhashable_id ∷ items) rs f h = tt
    process_entries-IsLoaded enter relative_to (not_a_mapping ∷ items) rs f h = tt

    -- The files that are not in the chain.
    unread : List String → List (String × RuleFile C) → ℕ
    unread chain fs = length (keep_if (λ (f : String × RuleFile C). not (in_chain f.0 chain)) fs)

    unread-le :
        (p : String) (chain : List String) (fs : List (String × RuleFile C))
        → unread (p ∷ chain) fs ≤ unread chain fs
    unfolding unread
    unread-le p chain [] = omega arith
    unread-le p chain (f ∷ fs) = ground (arith, unread-le p chain fs)

    unread-lt :
        (p : String) (chain : List String) (fs : List (String × RuleFile C)) (file : RuleFile C)
        → in_chain p chain ≡ false
        → find_file p fs ≡ some file
        → unread (p ∷ chain) fs < unread chain fs
    unfolding unread
    unread-lt p chain [] file o h = absurd (cc h)
    unread-lt p chain ((q, f) ∷ fs) file o h =
        ground (arith, eq_iff q p, eq_iff p q, unread-le p chain fs, unread-lt p chain fs file o)

    unread-all : (fs : List (String × RuleFile C)) → unread [] fs ≡ length fs
    unfolding unread
    unread-all [] = refl
    unread-all (f ∷ fs) = ap suc (unread-all fs)

    module _ (files : List (String × RuleFile C)) where
      enter_file-Ends :
          (n : ℕ) (chain : List String)
          → unread chain files < n
          → Ends (enter_file resolve_include parent files n chain)
      unfolding Ends enter_file
      enter_file-Ends zero chain lt p rs h = absurd (omega (arith, lt))
      enter_file-Ends (suc n) chain lt p rs h = elim (Bool-cases (in_chain p chain)) [
        | inl e ↦ rw e tt
        | inr e ↦ rw e (elim (Option-cases (find_file p files)) [
          | inl q ↦ rw q tt
          | inr (no_mapping, q) ↦ rw q tt
          | inr (not_iterable, q) ↦ rw q tt
          | inr (rule_list items, q) ↦ rw q (
              process_entries-IsLoaded (enter_file resolve_include parent files n (p ∷ chain))
                (parent p) items rs
                (enter_file-Ends n (p ∷ chain)
                  (omega (arith, lt, unread-lt p chain files (rule_list items) e q)))
                h)
        ])
      ]

-- Loading a ruleset always comes to an end, whatever files include whatever others, each of which
-- can be read and parses as YAML: the fuel of one more than the files there are is enough, since a
-- chain of includes has no file twice. It gives rules whose ids are distinct, one of the errors of
-- the configuration, or the `TypeError` of an id that is not hashable or of a file whose `rules`
-- cannot be iterated.
pub load_ruleset_ends :
    {C : Type 0} (resolve_include : String → String → Option String) (parent : String → String)
    (files : List (String × RuleFile C)) (entries : List (Entry C)) (base_dir : String)
    → IsLoaded (load_ruleset resolve_include parent files entries base_dir)
unfolding load_ruleset
load_ruleset_ends resolve_include parent files entries base_dir =
    process_entries-IsLoaded resolve_include parent
      (enter_file resolve_include parent files (suc (length files)) []) base_dir entries []
      (enter_file-Ends resolve_include parent files (suc (length files)) []
        (omega (arith, unread-all resolve_include parent files)))
      tt
