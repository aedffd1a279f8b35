-- ===== src/Rules/Loading.antt =====
-- `load_ruleset` (dlpduck/rules.py): includes, and overrides by id.
pub mod Ends
use dlpduck.Prelude.{
  ℕ, zero, suc, String, Bool, Option, none, some, List, [], ◌∷◌, str_eq, if◌then◌else◌, length,
  any_of,
}

-- An entry of a list of rules as YAML gives it; a rule may lack an id or have an empty one. An id
-- that is a list or a mapping is not hashable.
pub data Entry (C : Type 0) : Type 0 where
  include : String → Entry C
  rule_entry : Option String → C → Entry C
  unhashable_id : Entry C
  not_a_mapping : Entry C

-- What a file that parses as YAML holds: a list under `rules` (none where the key is absent; a
-- string or a mapping there counts as the list of its characters or keys, each `not_a_mapping`),
-- something under `rules` that cannot be iterated, as null, a number or a truth value, or no
-- mapping.
pub data RuleFile (C : Type 0) : Type 0 where
  rule_list : List (Entry C) → RuleFile C
  not_iterable : RuleFile C
  no_mapping : RuleFile C

pub data LoadError : Type 0 where
  bad_entry missing_id include_cycle include_not_found outside_builtins bad_file : LoadError

-- `collected` in the order of `order`
abbrev pub Collected : Type 0 → Type 0
Collected C = List (String × C)

pub data Loaded (C : Type 0) : Type 0 where
  collected : Collected C → Loaded C
  refused : LoadError → Loaded C
  raises_type_error : Loaded C
  no_fuel : Loaded C

abbrev pub collect : {C : Type 0} → String → C → Collected C → Collected C
collect rid c [] = (rid, c) ∷ []
collect rid c ((j, d) ∷ rs) = if str_eq j rid then (j, c) ∷ rs else (j, d) ∷ collect rid c rs

abbrev pub find_file : {C : Type 0} → String → List (String × RuleFile C) → Option (RuleFile C)
find_file p [] = none
find_file p ((q, f) ∷ fs) = if str_eq q p then some f else find_file p fs

abbrev pub in_chain : String → List String → Bool
in_chain p chain = any_of (λ (q : String). str_eq q p) chain

module _ {C : Type 0} (resolve_include : String → String → Option String)
    (parent : String → String) where
  abbrev pub and_then : Loaded C → (Collected C → Loaded C) → Loaded C
  and_then (collected rs) k = k rs
  and_then (refused e) k = refused e
  and_then raises_type_error k = raises_type_error
  and_then no_fuel k = no_fuel

  abbrev pub visit_include :
      (String → Collected C → Loaded C) → Option String → Collected C → Loaded C
  visit_include enter none rs = refused outside_builtins
  visit_include enter (some p) rs = enter p rs

  abbrev pub add_rule : Option String → C → Collected C → Loaded C
  add_rule none c rs = refused missing_id
  add_rule (some rid) c rs =
      if str_eq rid "" then refused missing_id else collected (collect rid c rs)

  -- `process`, where `enter` reads an included file.
  unfoldable pub process_entries :
      (String → Collected C → Loaded C) → String → List (Entry C) → Collected C → Loaded C
  process_entries enter relative_to [] rs = collected rs
  process_entries enter relative_to (include s ∷ items) rs =
      and_then (visit_include enter (resolve_include s relative_to) rs)
        (process_entries enter relative_to items)
  process_entries enter relative_to (rule_entry rid c ∷ items) rs =
      and_then (add_rule rid c rs) (process_entries enter relative_to items)
  process_entries enter relative_to (unhashable_id ∷ items) rs = raises_type_error
  process_entries enter relative_to (not_a_mapping ∷ items) rs = refused bad_entry

  module _ (files : List (String × RuleFile C)) where
    abbrev pub read_file :
        (String → Collected C → Loaded C) → String → Option (RuleFile C) → Collected C → Loaded C
    read_file enter p none rs = refused include_not_found
    read_file enter p (some no_mapping) rs = refused bad_file
    read_file enter p (some not_iterable) rs = raises_type_error
    read_file enter p (some (rule_list items)) rs = process_entries enter (parent p) items rs

    -- The file of an include, in a chain of files that include one another.
    unfoldable pub enter_file : ℕ → List String → String → Collected C → Loaded C
    unfolding process_entries
    enter_file zero chain p rs = no_fuel
    enter_file (suc n) chain p rs =
        let opened = read_file (enter_file n (p ∷ chain)) p (find_file p files) rs in
        if in_chain p chain then refused include_cycle else opened

    -- `load_ruleset`, up to the compilation of the rules.
    unfoldable pub load_ruleset : List (Entry C) → String → Loaded C
    unfolding enter_file process_entries
    load_ruleset entries base_dir =
        process_entries (enter_file (suc (length files)) []) base_dir entries []
