-- ===== src/Engine/Reference.antt =====
-- What a scan is to find, with no clock, no loop and no early exit: an independent description of
-- the result of dlpduck/engine.py. `found` and `contains` are the matches that the package `regex`
-- documents, all of them, when it is given time.
use dlpduck.Prelude.{
  ℕ, suc, ◌+◌, ◌-◌, ◌≡◌, Bool, true, ◌&&◌, Option, none, some, List, [], ◌∷◌, ◌++◌, leb,
  if◌then◌else◌, any_of,
}
use dlpduck.Document.{Text, TextLine, DlpHit, DocumentText, full_text, line_at, offset_of}
use dlpduck.Rules.{by_line, by_document, Rule, in_range}
use dlpduck.Engine.{DlpEngine, group, make_hit}
use dlpduck.Engine.Effects.{Span}

-- The lines are numbered by their places, from `n`.
abbrev pub NumberedFrom : ℕ → List TextLine → Type 0
NumberedFrom n [] = Unit
NumberedFrom n (line ∷ rest) = (line.line_number ≡ n) × NumberedFrom (suc n) rest

abbrev pub IsNumbered : DocumentText → Type 0
IsNumbered text = NumberedFrom 0 text.lines

unfoldable pub flat {ℓ κ} : {A : Type ℓ} {B : Type κ} → (A → List B) → List A → List B
flat f [] = []
flat f (x ∷ xs) = f x ++ flat f xs

-- A line is within `window` lines of `line`, in either direction.
abbrev pub within : ℕ → TextLine → TextLine → Bool
within window line other =
    leb line.line_number (other.line_number + window)
    && leb other.line_number (line.line_number + window)

module _ {P : Type 0} (found : P → Text → List Span) (contains : P → Text → Bool) where
  unfoldable pub near_text : Rule P → DocumentText → TextLine → Bool
  near_text rule text line = elim rule.ctx_regex [
    | none ↦ true
    | some ctx ↦
        any_of (λ other. within rule.ctx_window line other && contains ctx other.text) text.lines
  ]

  module _ (engine : DlpEngine P) (text : DocumentText) (rule : Rule P) where
    -- A match counts if it validates, its line lies in the rule's window, and the context is near.
    unfoldable pub line_hit : TextLine → Span → List DlpHit
    line_hit line m =
        let raw = group line.text m in
        if rule.validator raw && near_text rule text line
        then make_hit engine rule line m.0 m.1 raw ∷ []
        else []

    unfoldable pub line_hits : TextLine → List DlpHit
    line_hits line =
        if in_range rule line then flat (line_hit line) (found rule.pattern line.text) else []

    -- In the joined text a match belongs to the line in which it begins.
    unfoldable pub document_hit_at : Span → Text → Option TextLine → List DlpHit
    document_hit_at m raw none = []
    document_hit_at m raw (some line) =
        if in_range rule line && near_text rule text line
        then elim (offset_of text line.line_number) [
          | none ↦ []
          | some base ↦ make_hit engine rule line (m.0 - base) (m.1 - base) raw ∷ []
        ]
        else []

    unfoldable pub document_hit_of : Span → List DlpHit
    document_hit_of m =
        let raw = group (full_text text) m in
        if rule.validator raw then document_hit_at m raw (line_at text m.0) else []

    unfoldable pub rule_hits : List DlpHit
    rule_hits = elim rule.scope [
      | by_line ↦ flat line_hits text.lines
      | by_document ↦ flat document_hit_of (found rule.pattern (full_text text))
    ]

  unfoldable pub all_hits : DlpEngine P → DocumentText → List DlpHit
  all_hits engine text = flat (rule_hits engine text) engine.rules
