-- ===== src/Rules.antt =====
-- dlpduck/rules.py: a compiled rule and its window of lines. The type `P` of compiled patterns is
-- that of the third-party package `regex`.
pub mod Loading
pub mod Make
use dlpduck.Prelude.{
  ℕ, ◌+◌, String, ◌≡◌, refl, ◌⊎◌, inl, inr, Bool, true, false, ◌&&◌, Option, none, some, ltb,
  if◌then◌else◌,
}
use dlpduck.Document.{Text, Severity, TextLine, Action}

pub data Scope : Type 0 where
  by_line by_document : Scope

pub Scope-cases : (s : Scope) → (s ≡ by_line) ⊎ (s ≡ by_document)
Scope-cases by_line = inl refl
Scope-cases by_document = inr refl

pub data LineScope : Type 0 where
  in_page in_document : LineScope

-- The attributes that `Rule.__init__` sets.
pub record Rule (P : Type 0) : Type 0 where
  pub id : String
  pub name : String
  pub pattern : P
  pub severity : Severity
  pub action : Action
  pub scope : Scope
  pub line_scope : LineScope
  pub from_end : Bool
  pub min_line : Option ℕ
  pub max_line : Option ℕ
  pub validator : Text → Bool
  pub validator_name : Option String
  pub mask_keep : ℕ
  pub ctx_regex : Option P
  pub ctx_window : ℕ
  pub enabled : Bool

-- A position that may be negative, as `plus` - `minus`.
pub record Position : Type 0 where
  pub plus : ℕ
  pub minus : ℕ

unfoldable pub position : {P : Type 0} → Rule P → TextLine → Position
position rule line = elim rule.line_scope [
  | in_page ↦
      if rule.from_end
      then record { plus = line.lines_on_page; minus = 1 + line.line_on_page }
      else record { plus = line.line_on_page; minus = 0 }
  | in_document ↦ record { plus = line.line_number; minus = 0 }
]

-- pos < bound, and pos > bound
abbrev pub before : Position → ℕ → Bool
before pos bound = ltb pos.plus (bound + pos.minus)

abbrev pub after : Position → ℕ → Bool
after pos bound = ltb (bound + pos.minus) pos.plus

too_early : Option ℕ → Position → Bool
too_early none pos = false
too_early (some m) pos = before pos m

too_late : Option ℕ → Position → Bool
too_late none pos = false
too_late (some m) pos = after pos m

is_unset : Option ℕ → Bool
is_unset none = true
is_unset (some m) = false

unfoldable pub in_range : {P : Type 0} → Rule P → TextLine → Bool
unfolding is_unset too_early too_late position
in_range rule line =
    if is_unset rule.min_line && is_unset rule.max_line
    then true
    else if too_early rule.min_line (position rule line)
    then false
    else if too_late rule.max_line (position rule line)
    then false
    else true
