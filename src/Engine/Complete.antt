-- ===== src/Engine/Complete.antt =====
-- A scan that ends with hits has found all of them, and only them (dlpduck/engine.py).
use dlpduck.Engine.Reference.{
  IsNumbered, flat, within, near_text, line_hit, line_hits, document_hit_at, document_hit_of,
  rule_hits, all_hits,
}
use dlpduck.Rules.{Scope-cases, Rule, before, in_range}
use mathlib.Core.List.{append_assoc, append-nil}
use dlpduck.Prelude.{
  ℕ, ◌+◌, ◌-◌, ◌≡◌, ◌∙◌, inl, inr, Bool, true, false, ◌&&◌, Option, none, some, List, [], ◌∷◌, ◌++◌,
  arith, ltb, if◌then◌else◌, Bool-cases, Option-cases, drop, any_of, any_of_congr,
}
use dlpduck.Document.{Text, TextLine, DlpHit, DocumentText, full_text, line_at, offset_of}
use dlpduck.Engine.{
  DlpEngine, Budget, bisect_left, group, make_hit, hits, start_budget, remaining, near_loop,
  context_near, in_context, line_matches, scan_lines, rebased_hit, document_hit, document_matches,
  scan_document, scan_rule, scan_rules, scan,
}
use dlpduck.Engine.Effects.{
  index_error, Result-cases, Span, Regex, Scan, pure, ◌>>=◌, timed, Gives, Gives-pure, Gives-eq,
  Gives-raise, Gives-timed, continue-eq-ok, Gives-bind, Gives-if,
}
use dlpduck.Engine.Window.{first_near, first_near-window}

-- What the package `regex` documents of a call that returns before its timeout: it has found all
-- matches of the pattern, and nothing else.
pub record IsFaithful (env : Regex) (found : env.Pattern → Text → List Span)
    (contains : env.Pattern → Text → Bool) : Type 0 where
  pub finditer_found :
      (p : env.Pattern) (x : Text) (left : Option ℕ) (t : ℕ) (ms : List Span)
      → env.finditer p x left t ≡ some ms
      → ms ≡ found p x
  pub search_contains :
      (p : env.Pattern) (x : Text) (left : Option ℕ) (t : ℕ) (b : Bool)
      → env.search p x left t ≡ some b
      → b ≡ contains p x

-- A computation whose value nothing is known of, before one that gives `b` in any case.
Gives-after :
    {A B : Type 0} (m : Scan A) (f : A → Scan B) (b : B)
    → ((a : A) → Gives (f a) b)
    → Gives (m >>= f) b
unfolding ◌>>=◌
Gives-after m f b hf t c t' h = let (a, t1, e, q) = continue-eq-ok (m t) f h in hf a t1 c t' q

module _ (env : Regex) (found : env.Pattern → Text → List Span)
    (contains : env.Pattern → Text → Bool) (faithful : IsFaithful env found contains) where
  open env use {Pattern, finditer, search, now}

  Gives-find :
      (p : Pattern) (x : Text) (left : Option ℕ) → Gives (timed (finditer p x left)) (found p x)
  Gives-find p x left =
      Gives-timed (finditer p x left) (found p x) (faithful.finditer_found p x left)

  Gives-search :
      (p : Pattern) (x : Text) (left : Option ℕ) → Gives (timed (search p x left)) (contains p x)
  Gives-search p x left =
      Gives-timed (search p x left) (contains p x) (faithful.search_contains p x left)

  Gives-near_loop :
      (ctx : Pattern) (budget : Budget) (hi : ℕ) (ls : List TextLine)
      → Gives (near_loop env ctx budget hi ls) (first_near (λ o. contains ctx o.text) hi ls)
  unfolding near_loop first_near
  Gives-near_loop ctx budget hi [] = Gives-pure false
  Gives-near_loop ctx budget hi (other ∷ rest) =
      Gives-if (ltb hi other.line_number) (pure false) _ false _ (Gives-pure false) (
        Gives-after (remaining env budget) _ _ λ left.
          Gives-bind (timed (search ctx other.text left)) _ (contains ctx other.text) _
            (Gives-search ctx other.text left)
            (Gives-if (contains ctx other.text) (pure true) _ true _ (Gives-pure true)
              (Gives-near_loop ctx budget hi rest)))

  module _ (text : DocumentText) (numbered : IsNumbered text) (budget : Budget) where
    window_eq :
        (w : ℕ) (ctx : Pattern) (line : TextLine)
        → first_near
            (λ o. contains ctx o.text)
            (line.line_number + w)
            (drop (bisect_left text.lines (line.line_number - w)) text.lines)
          ≡ any_of (λ o. within w line o && contains ctx o.text) text.lines
    window_eq w ctx line =
        first_near-window (λ o. contains ctx o.text) (line.line_number + w) 0 (line.line_number - w)
          text.lines numbered
        ∙ any_of_congr _ _ text.lines (λ o. ground arith)

    Gives-in_context :
        (rule : Rule Pattern) (line : TextLine)
        → Gives (in_context env rule text line budget) (near_text found contains rule text line)
    unfolding in_context near_text
    Gives-in_context rule line = elim (Option-cases rule.ctx_regex) [
      | inl e ↦ rw (e, in_context, near_text) (Gives-pure true)
      | inr p ↦
          rw (p.1, in_context, near_text)
            (Gives-eq (context_near env rule p.0 text line budget)
              (window_eq rule.ctx_window p.0 line)
              (Gives-near_loop p.0 budget (line.line_number + rule.ctx_window)
                (drop (bisect_left text.lines (line.line_number - rule.ctx_window)) text.lines)))
    ]

    module _ (engine : DlpEngine Pattern) (rule : Rule Pattern) where
      abbrev near : TextLine → Bool
      near line = near_text found contains rule text line

      Gives-line_matches :
          (line : TextLine) (ms : List Span)
          → Gives
              (line_matches env engine rule text budget line ms)
              (flat (line_hit found contains engine text rule line) ms)
      unfolding line_matches flat line_hit
      Gives-line_matches line [] = Gives-pure []
      Gives-line_matches line (m ∷ ms) = elim (Bool-cases (rule.validator (group line.text m))) [
        | inr e ↦ rw e (Gives-line_matches line ms)
        | inl e ↦ rw e (
            Gives-eq _ (ground arith) (
              Gives-bind (in_context env rule text line budget) _ (near line) _
                (Gives-in_context rule line)
                (Gives-bind (line_matches env engine rule text budget line ms) _ _ _
                  (Gives-line_matches line ms) (Gives-pure _))))
      ]

      Gives-scan_lines :
          (lines : List TextLine)
          → Gives
              (scan_lines env engine rule text budget lines)
              (flat (line_hits found contains engine text rule) lines)
      unfolding scan_lines flat line_hits
      Gives-scan_lines [] = Gives-pure []
      Gives-scan_lines (line ∷ lines) = elim (Bool-cases (in_range rule line)) [
        | inr e ↦ rw e (Gives-scan_lines lines)
        | inl e ↦ rw e (
            Gives-after (remaining env budget) _ _ λ left.
              Gives-bind (timed (finditer rule.pattern line.text left)) _
                (found rule.pattern line.text) _ (Gives-find rule.pattern line.text left)
                (Gives-bind
                  (line_matches env engine rule text budget line (found rule.pattern line.text))
                  (λ here.
                    scan_lines env engine rule text budget lines >>= λ rest. pure (here ++ rest))
                  (flat (line_hit found contains engine text rule line)
                    (found rule.pattern line.text))
                  _ (Gives-line_matches line (found rule.pattern line.text))
                  (Gives-bind (scan_lines env engine rule text budget lines)
                    (λ rest. pure (_ ++ rest))
                    (flat (line_hits found contains engine text rule) lines) _
                    (Gives-scan_lines lines) (Gives-pure _))))
      ]

      Gives-rebased_hit :
          (line : TextLine) (m : Span) (raw : Text) (more : Scan (List DlpHit)) (hs : List DlpHit)
          → Gives more hs
          → Gives (rebased_hit env engine rule text budget line m raw more) (
              (elim (offset_of text line.line_number) [
                | none ↦ []
                | some base ↦ make_hit engine rule line (m.0 - base) (m.1 - base) raw ∷ []
              ])
              ++ hs)
      unfolding rebased_hit
      Gives-rebased_hit line m raw more hs g =
          elim (Option-cases (offset_of text line.line_number)) [
            | inl e ↦ rw e (Gives-raise index_error hs)
            | inr p ↦ rw (p.1) (
                Gives-bind more
                  (λ rest. pure (make_hit engine rule line (m.0 - p.0) (m.1 - p.0) raw ∷ rest)) hs _
                  g (Gives-pure _))
          ]

      Gives-document_hit :
          (line : TextLine) (m : Span) (raw : Text) (more : Scan (List DlpHit)) (hs : List DlpHit)
          → in_range rule line ≡ true
          → Gives more hs
          → Gives
              (document_hit env engine rule text budget line m raw more)
              (document_hit_at found contains engine text rule m raw (some line) ++ hs)
      unfolding document_hit document_hit_at
      Gives-document_hit line m raw more hs i g = elim (Bool-cases (near line)) [
        | inr e ↦
            rw (i, e)
              (Gives-bind (in_context env rule text line budget)
                (λ b. if b then rebased_hit env engine rule text budget line m raw more else more)
                false hs (rw e at (Gives-in_context rule line)) g)
        | inl e ↦
            rw (i, e)
              (Gives-bind (in_context env rule text line budget)
                (λ b. if b then rebased_hit env engine rule text budget line m raw more else more)
                true _ (rw e at (Gives-in_context rule line))
                (Gives-rebased_hit line m raw more hs g))
      ]

      document_hit_at-out :
          (line : TextLine) (m : Span) (raw : Text)
          → in_range rule line ≡ false
          → document_hit_at found contains engine text rule m raw (some line) ≡ []
      unfolding document_hit_at
      document_hit_at-out line m raw o = rw o

      Gives-document_matches :
          (ms : List Span)
          → Gives
              (document_matches env engine rule text budget ms)
              (flat (document_hit_of found contains engine text rule) ms)
      unfolding document_matches flat document_hit_of
      Gives-document_matches [] = Gives-pure []
      Gives-document_matches (m ∷ ms) =
          elim (Bool-cases (rule.validator (group (full_text text) m))) [
            | inr e ↦ rw e (Gives-document_matches ms)
            | inl e ↦ elim (Option-cases (line_at text m.0)) [
              | inl n ↦ rw (e, n) (Gives-raise index_error _)
              | inr p ↦ elim (Bool-cases (in_range rule p.0)) [
                | inl i ↦
                    rw (e, p.1, i) (Gives-document_hit p.0 m _ _ _ i (Gives-document_matches ms))
                | inr o ↦ rw (e, p.1, o, document_hit_at-out p.0 m _ o) (Gives-document_matches ms)
              ]
            ]
          ]

      Gives-scan_document : Gives (scan_document env engine rule text budget) (
          flat
            (document_hit_of found contains engine text rule)
            (found rule.pattern (full_text text)))
      unfolding scan_document
      Gives-scan_document = Gives-after (remaining env budget) _ _ λ left.
          Gives-bind (timed (finditer rule.pattern (full_text text) left))
            (document_matches env engine rule text budget) (found rule.pattern (full_text text)) _
            (Gives-find rule.pattern (full_text text) left)
            (Gives-document_matches (found rule.pattern (full_text text)))

  module _ (text : DocumentText) (numbered : IsNumbered text) (engine : DlpEngine Pattern) where
    Gives-scan_rule :
        (rule : Rule Pattern)
        → Gives (scan_rule env engine text rule) (rule_hits found contains engine text rule)
    unfolding scan_rule rule_hits
    Gives-scan_rule rule = Gives-after (start_budget env engine.rule_budget_seconds) _ _ λ budget.
        elim (Scope-cases rule.scope) [
          | inl s ↦ rw (s, rule_hits) (Gives-scan_lines text numbered budget engine rule text.lines)
          | inr s ↦ rw (s, rule_hits) (Gives-scan_document text numbered budget engine rule)
        ]

    scan_rules_complete :
        (rules : List (Rule Pattern)) (found_before hs : List DlpHit) (t : ℕ)
        → scan_rules env engine text rules found_before t ≡ hits hs
        → hs ≡ found_before ++ flat (rule_hits found contains engine text) rules
    unfolding scan_rules flat
    scan_rules_complete [] before hs t h = rw append-nil (cc)
    scan_rules_complete (rule ∷ rules) before hs t h =
        elim (Result-cases (scan_rule env engine text rule t)) [
          | inl ((new, t'), e) ↦
              let given : new ≡ rule_hits found contains engine text rule =
                Gives-scan_rule rule t new t' e in
              rw (← given, ← append_assoc)
                (scan_rules_complete rules (before ++ new) hs t' (rw (e, scan_rules) at h))
          | inr (inl e) ↦ cc (rw (e, scan_rules) at h)
          | inr (inr e) ↦ cc (rw (e, scan_rules) at h)
        ]

  -- If a scan ends with hits, whatever the clock did meanwhile, then they are those of the
  -- reference,
  -- in order: no match of any rule is left out, and none is added. The lines of the document are
  -- numbered by their places.
  pub scan_complete :
      (engine : DlpEngine Pattern) (text : DocumentText) (t : ℕ) (hs : List DlpHit)
      → IsNumbered text
      → scan env engine text t ≡ hits hs
      → hs ≡ all_hits found contains engine text
  unfolding scan all_hits
  scan_complete engine text t hs numbered h =
      scan_rules_complete text numbered engine engine.rules [] hs t h
