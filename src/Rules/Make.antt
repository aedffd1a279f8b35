-- ===== src/Rules/Make.antt =====
-- `Rule.__init__`, and the rules that `load_ruleset` returns (dlpduck/rules.py). The compiler of
-- patterns is that of the package `regex`; `shown` is the text of a name that is no str.
pub mod Live
use Prim.Native.Char.{code}
use Prim.Native.String.{[] as no_chars, ◌∷◌ as ◌∷c◌}
use dlpduck.Prelude.{
  ℕ, zero, suc, String, Bool, true, false, not, ◌&&◌, ◌||◌, Option, none, some, List, [], ◌∷◌,
  str_eq, ltb, ◌==◌, if◌then◌else◌,
}
use dlpduck.Document.{
  Text, Severity, info, low, medium, high, critical, Action, quarantine, flag, ignore,
}
use dlpduck.Unicode.{Unicode, is_digit, is_lower, is_upper}
use dlpduck.Validators.{luhn, nhs_mod11, iban_mod97}
use dlpduck.Content.{at_end}
use dlpduck.Rules.{Scope, by_line, by_document, LineScope, in_page, in_document, Rule}
use dlpduck.Rules.Loading.{
  Entry, RuleFile, Loaded, collected, refused, raises_type_error, no_fuel, load_ruleset,
}

-- A value as YAML gives it. Of a float, a date, a list or a mapping only its truth is read.
pub data Yaml : Type 0 where
  null : Yaml
  truth : Bool → Yaml
  whole negative : ℕ → Yaml
  string : String → Yaml
  scalar structure : Bool → Yaml

-- The mapping under `requires_context`, and whether it has no key at all; or some other value.
pub data Context : Type 0 where
  mapping : Option Yaml → Option Yaml → Bool → Context
  no_mapping_but : Yaml → Context

pub record Config : Type 0 where
  pub id : Option Yaml
  pub name : Option Yaml
  pub pattern : Option Yaml
  pub severity : Option Yaml
  pub action : Option Yaml
  pub scope : Option Yaml
  pub line_scope : Option Yaml
  pub from_end : Option Yaml
  pub min_line : Option Yaml
  pub max_line : Option Yaml
  pub validator : Option Yaml
  pub mask_keep : Option Yaml
  pub requires_context : Option Context
  pub enabled : Option Yaml

-- RuleConfigError with the field it is about, and the TypeError of an unhashable value or of a
-- pattern that is no str, which nothing catches.
pub data Made (A : Type 0) : Type 0 where
  ok : A → Made A
  config_error : String → Made A
  type_error : Made A

infixl 5 ◌>>=◌
unfoldable pub ◌>>=◌ : {A B : Type 0} → Made A → (A → Made B) → Made B
ok a >>= f = f a
config_error e >>= f = config_error e
type_error >>= f = type_error

abbrev pub codes : String → Text
codes no_chars = []
codes (c ∷c s) = code c ∷ codes s

abbrev is_id_start : ℕ → Bool
is_id_start c = is_upper c || is_lower c || is_digit c

abbrev is_id_char : ℕ → Bool
is_id_char c = is_id_start c || (c == b'.') || (c == b'_') || (c == b'-')

-- [A-Za-z0-9._-]{0,n}$
abbrev match_up_to : ℕ → Text → Bool
match_up_to zero s = at_end s
match_up_to (suc n) [] = true
match_up_to (suc n) (c ∷ s) =
    let rest = match_up_to n s in if is_id_char c then rest else at_end (c ∷ s)

-- `_VALID_RULE_ID`
unfoldable pub is_rule_id : Text → Bool
is_rule_id [] = false
is_rule_id (c ∷ s) = is_id_start c && match_up_to 63 s

abbrev is_true : Yaml → Bool
is_true null = false
is_true (truth b) = b
is_true (whole n) = ltb 0 n
is_true (negative n) = true
is_true (string s) = not (str_eq s "")
is_true (scalar b) = b
is_true (structure b) = b

-- bool(cfg.get(key, default))
abbrev truth_or : Bool → Option Yaml → Bool
truth_or b none = b
truth_or b (some v) = is_true v

-- `_non_negative_int`
unfoldable pub non_negative_int : String → Yaml → Made ℕ
non_negative_int field null = config_error field
non_negative_int field (truth b) = config_error field
non_negative_int field (whole n) = ok n
non_negative_int field (negative n) = config_error field
non_negative_int field (string s) = config_error field
non_negative_int field (scalar b) = config_error field
non_negative_int field (structure b) = config_error field

abbrev number_or : ℕ → String → Option Yaml → Made ℕ
number_or n field none = ok n
number_or n field (some v) = non_negative_int field v

-- `_optional_line`
unfoldable pub optional_line : String → Option Yaml → Made (Option ℕ)
unfolding non_negative_int
optional_line field none = ok none
optional_line field (some null) = ok none
optional_line field (some v) = non_negative_int field v >>= λ n. ok (some n)

abbrev look_up : {A : Type 0} → String → String → List (String × A) → Made A
look_up field k [] = config_error field
look_up field k ((j, a) ∷ m) = let rest = look_up field k m in if str_eq k j then ok a else rest

-- One of a set of names, where a value that cannot be hashed raises.
abbrev chosen : {A : Type 0} → String → A → List (String × A) → Option Yaml → Made A
chosen field a m none = ok a
chosen field a m (some (string s)) = look_up field s m
chosen field a m (some (structure b)) = type_error
chosen field a m (some v) = config_error field

-- The built-in `VALIDATORS`
abbrev validators : Unicode → List (String × (Text → Bool))
validators u =
    ("none", λ s. true)
    ∷ ("luhn", luhn u)
    ∷ ("iban_mod97", iban_mod97 u)
    ∷ ("nhs_mod11", nhs_mod11 u)
    ∷ []

abbrev severities : List (String × Severity)
severities =
    ("INFO", info)
    ∷ ("LOW", low)
    ∷ ("MEDIUM", medium)
    ∷ ("HIGH", high)
    ∷ ("CRITICAL", critical)
    ∷ []

-- Severity(value), which refuses an unhashable value as it does others.
abbrev severity_of : Option Yaml → Made Severity
severity_of none = ok medium
severity_of (some (string s)) = look_up "severity" s severities
severity_of (some v) = config_error "severity"

abbrev action_of : Option Yaml → Made Action
action_of =
    chosen "action" flag (("quarantine", quarantine) ∷ ("flag", flag) ∷ ("ignore", ignore) ∷ [])

abbrev scope_of : Option Yaml → Made Scope
scope_of = chosen "scope" by_line (("line", by_line) ∷ ("document", by_document) ∷ [])

abbrev line_scope_of : Option Yaml → Made LineScope
line_scope_of = chosen "line_scope" in_document (("page", in_page) ∷ ("document", in_document) ∷ [])

-- cfg["id"], checked against the pattern
unfoldable pub checked_id : Option Yaml → Made String
unfolding is_rule_id
checked_id (some (string s)) = if is_rule_id (codes s) then ok s else config_error "id"
checked_id v = config_error "id"

abbrev pub is_after : Option ℕ → Option ℕ → Bool
is_after (some m) (some n) = ltb n m
is_after m n = false

-- min_line and max_line
unfoldable pub line_window : Config → Made (Option ℕ × Option ℕ)
unfolding optional_line
line_window cfg = optional_line "min_line" cfg.min_line >>= λ m.
    optional_line "max_line" cfg.max_line >>= λ n.
    (if is_after m n then config_error "min_line" else ok (m, n))

abbrev validator_name_of : String → Option String
validator_name_of s = if str_eq s "none" then none else some s

abbrev validator_of : Unicode → Option Yaml → Made ((Text → Bool) × Option String)
validator_of u none = ok ((λ s. true), none)
validator_of u (some (string s)) =
    look_up "validator" s (validators u) >>= λ f. ok (f, validator_name_of s)
validator_of u (some (structure b)) = type_error
validator_of u (some v) = config_error "validator"

module _ {P : Type 0} (u : Unicode) (compile : String → Option P) (shown : Yaml → String) where
  abbrev compiled : String → Option P → Made P
  compiled field none = config_error field
  compiled field (some p) = ok p

  -- regex.compile, which raises a TypeError for what is no str
  abbrev pattern_of : String → Yaml → Made P
  pattern_of field (string s) = compiled field (compile s)
  pattern_of field v = type_error

  abbrev required : String → Option Yaml → Made Yaml
  required field none = config_error field
  required field (some v) = ok v

  abbrev name_of : Yaml → String
  name_of (string s) = s
  name_of v = shown v

  abbrev context_with : Option Yaml → Option Yaml → Made (Option P × ℕ)
  context_with none within = config_error "requires_context"
  context_with (some v) within = pattern_of "requires_context" v >>= λ p.
      number_or 2 "requires_context.within_lines" within >>= λ n. ok (some p, n)

  abbrev rule_context : Option Context → Made (Option P × ℕ)
  rule_context none = ok (none, 0)
  rule_context (some (mapping v within is_empty)) =
      if is_empty then ok (none, 0) else context_with v within
  rule_context (some (no_mapping_but v)) =
      if is_true v then config_error "requires_context" else ok (none, 0)

  -- `Rule.__init__`
  unfoldable pub make_rule : Config → Made (Rule P)
  unfolding checked_id line_window
  make_rule cfg = checked_id cfg.id >>= λ id. required "name" cfg.name >>= λ name.
      required "pattern" cfg.pattern >>= λ pattern. pattern_of "pattern" pattern >>= λ p.
      severity_of cfg.severity >>= λ severity. action_of cfg.action >>= λ action.
      scope_of cfg.scope >>= λ scope. line_scope_of cfg.line_scope >>= λ line_scope.
      line_window cfg >>= λ window. validator_of u cfg.validator >>= λ validator.
      number_or 0 "mask_keep" cfg.mask_keep >>= λ mask_keep.
      rule_context cfg.requires_context >>= λ context. ok (record {
        id = id;
        name = name_of name;
        pattern = p;
        severity = severity;
        action = action;
        scope = scope;
        line_scope = line_scope;
        from_end = truth_or false cfg.from_end;
        min_line = window.0;
        max_line = window.1;
        validator = validator.0;
        validator_name = validator.1;
        mask_keep = mask_keep;
        ctx_regex = context.0;
        ctx_window = context.1;
        enabled = truth_or true cfg.enabled;
      })

  abbrev pub with_rule : Rule P → List (Rule P) → List (Rule P)
  with_rule r rs = if r.enabled then r ∷ rs else rs

  -- The loop at the end of `load_ruleset`
  unfoldable pub make_rules : List (String × Config) → Made (List (Rule P))
  unfolding make_rule
  make_rules [] = ok []
  make_rules ((rid, cfg) ∷ more) =
      make_rule cfg >>= λ r. make_rules more >>= λ rs. ok (with_rule r rs)

  -- What the loading of a ruleset gives is made into rules; it never lacks fuel.
  abbrev pub make_loaded : Loaded Config → Made (List (Rule P))
  make_loaded (collected cs) = make_rules cs
  make_loaded (refused e) = config_error "rules"
  make_loaded raises_type_error = type_error
  make_loaded no_fuel = config_error "fuel"

  -- `load_ruleset`, with the rules that it returns
  unfoldable pub load_rules :
      (String → String → Option String)
      → (String → String)
      → List (String × RuleFile Config)
      → List (Entry Config)
      → String
      → Made (List (Rule P))
  unfolding load_ruleset make_rules
  load_rules resolve_include parent files entries base_dir =
      make_loaded (load_ruleset resolve_include parent files entries base_dir)
