-- ===== src/Tests/Rulesets.antt =====
-- Rulesets that include one another, on concrete inputs (dlpduck/rules.py).
use dlpduck.Document.{medium, quarantine}
use dlpduck.Validators.{luhn}
use dlpduck.Prelude.{ℕ, String, ◌≡◌, refl, true, false, Option, none, some, List, [], ◌∷◌, All}
use dlpduck.Rules.Loading.{
  Entry, include, rule_entry, RuleFile, rule_list, not_iterable, include_cycle, collected, refused,
  raises_type_error, load_ruleset,
}
use dlpduck.Unicode.{ascii}
use dlpduck.Rules.{by_line, in_page, Rule}
use dlpduck.Rules.Make.{
  Yaml, truth, whole, string, structure, mapping, Config, config_error, type_error, ◌>>=◌,
  is_rule_id, non_negative_int, optional_line, checked_id, line_window, make_rule, make_rules,
  load_rules,
}
use dlpduck.Rules.Make.Live.{IsInForce, load_rules-IsInForce}
use dlpduck.Rules.Loading.Ends.{IsLoaded, load_ruleset_ends}

abbrev beside : String → String → Option String
beside s relative_to = some s

abbrev no_parent : String → String
no_parent p = ""

-- Two files that include each other, and one that is a ruleset of its own.
abbrev rule_files : List (String × RuleFile ℕ)
rule_files =
    ("a", rule_list (include "b" ∷ []))
    ∷ ("b", rule_list (rule_entry (some "card") 1 ∷ include "a" ∷ []))
    ∷ ("base", rule_list (rule_entry (some "card") 1 ∷ rule_entry (some "iban") 2 ∷ []))
    ∷ []

overridden :
    load_ruleset beside no_parent rule_files (include "base" ∷ rule_entry (some "card") 9 ∷ []) ""
    ≡ collected (("card", 9) ∷ ("iban", 2) ∷ [])
unfolding load_ruleset
overridden = refl

cyclic : load_ruleset beside no_parent rule_files (include "a" ∷ []) "" ≡ refused include_cycle
unfolding load_ruleset
cyclic = refl

-- A file with `rules: null` raises a `TypeError`.
null_rules :
    load_ruleset beside no_parent (("n", not_iterable) ∷ rule_files) (include "n" ∷ []) ""
    ≡ raises_type_error
unfolding load_ruleset
null_rules = refl

load_ruleset_ends_example :
    IsLoaded (load_ruleset beside no_parent rule_files (include "a" ∷ []) "")
load_ruleset_ends_example = load_ruleset_ends beside no_parent rule_files (include "a" ∷ []) ""

abbrev plain : Config
plain = record {
  id = some (string "card");
  name = some (string "Card");
  pattern = some (string "x");
  severity = none;
  action = some (string "quarantine");
  scope = none;
  line_scope = some (string "page");
  from_end = some (truth true);
  min_line = some (whole 2);
  max_line = some (whole 5);
  validator = some (string "luhn");
  mask_keep = some (whole 4);
  requires_context = some (mapping (some (string "card")) none false);
  enabled = none;
}

abbrev as_written : String → Option String
as_written s = some s

abbrev unnamed : Yaml → String
unnamed v = ""

-- A window that ends before it begins, and an action that is a list.
refused_rules :
    (make_rule ascii as_written unnamed (record plain { max_line = some (whole 1) })
      ≡ config_error "min_line")
    × (make_rule ascii as_written unnamed (record plain { action = some (structure true) })
        ≡ type_error)
unfolding make_rule checked_id is_rule_id line_window optional_line non_negative_int ◌>>=◌
refused_rules = (refl, refl)

abbrev own_rules : List (Entry Config)
own_rules =
    rule_entry (some "card") plain
    ∷ rule_entry (some "off")
        (record plain { id = some (string "off"); enabled = some (truth false) })
    ∷ []

abbrev card_rule : Rule String
card_rule = record {
  id = "card";
  name = "Card";
  pattern = "x";
  severity = medium;
  action = quarantine;
  scope = by_line;
  line_scope = in_page;
  from_end = true;
  min_line = some 2;
  max_line = some 5;
  validator = luhn ascii;
  validator_name = some "luhn";
  mask_keep = 4;
  ctx_regex = some "card";
  ctx_window = 2;
  enabled = true;
}

load_rules-IsInForce_example : All (IsInForce ascii as_written unnamed) (card_rule ∷ [])
unfolding load_rules load_ruleset make_rules make_rule checked_id is_rule_id line_window
    optional_line non_negative_int ◌>>=◌
load_rules-IsInForce_example =
    load_rules-IsInForce ascii as_written unnamed beside no_parent [] own_rules "" (card_rule ∷ [])
      refl
