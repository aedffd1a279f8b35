-- ===== src/Audit/Redact.antt =====
-- `AuditLog.redact` and `_protected_fields` (dlpduck/audit.py).
pub mod Intact
pub mod Kept
use mathlib.Core.Option
use dlpduck.Prelude.{
  ℕ, String, Bool, true, false, not, ◌&&◌, ◌||◌, Option, none, some, List, [], ◌∷◌, ◌++◌, map,
  str_eq, ◌==◌, if◌then◌else◌, any_of,
}
use dlpduck.Audit.Trail.{
  Value, str, num, strs, Event, Line, blank, torn, event, Partition, Trail, Integrity, mem_str,
  or_else,
}
use dlpduck.Audit.Append.{append}

pub data Refusal : Type 0 where
  no_fields no_event unredactable absent : Refusal

pub data Redacting : Type 0 where
  refused : Refusal → Redacting
  redacted_as : Trail → Event → Redacting

abbrev pub redaction_marker : Value
redaction_marker = str "[redacted]"

-- The names of the keys that carry the chain, and of the marker.
abbrev pub carriers : List String
carriers = "seq" ∷ "ts" ∷ "event" ∷ "prev" ∷ "hash" ∷ "redacted" ∷ []

-- The names that no redaction may empty.
unfoldable pub protected_fields : Event → List String
protected_fields e =
    if str_eq e.kind "audit.redacted" then "redacted_seq" ∷ "fields" ∷ carriers else carriers

-- `_find_event`
unfoldable pub find_line : ℕ → List Line → Option Event
find_line seq [] = none
find_line seq (blank ∷ ls) = find_line seq ls
find_line seq (torn ∷ ls) = find_line seq ls
find_line seq (event e ∷ ls) = let more = find_line seq ls in if e.seq == seq then some e else more

unfoldable pub find_event : ℕ → List Partition → Option Event
unfolding find_line
find_event seq [] = none
find_event seq (p ∷ ps) = or_else (find_line seq p.lines) (find_event seq ps)

abbrev is_there {ℓ} : {A : Type ℓ} → Option A → Bool
is_there none = false
is_there (some x) = true

-- `field in event`
abbrev pub has_field : Event → String → Bool
has_field e f =
    mem_str f ("seq" ∷ "ts" ∷ "event" ∷ [])
    || (is_there e.prev && str_eq f "prev")
    || (is_there e.hash && str_eq f "hash")
    || (is_there e.redacted && str_eq f "redacted")
    || any_of (λ kv. str_eq kv.0 f) e.fields

abbrev pub already_redacted : Option (List String) → List String
already_redacted none = []
already_redacted (some fs) = fs

-- event[field] = REDACTION_MARKER
abbrev pub empty_field : List String → String × Value → String × Value
empty_field fs (k, v) = (k, if mem_str k fs then redaction_marker else v)

-- The marker in place of a number or of a hash leaves none.
abbrev emptied_or {ℓ} : {A : Type ℓ} → List String → String → A → A → A
emptied_or fs k none_left v = if mem_str k fs then none_left else v

unfoldable pub empty_fields : List String → Event → Event
empty_fields fs e = record e {
  seq = emptied_or fs "seq" 0 e.seq;
  ts = emptied_or fs "ts" "[redacted]" e.ts;
  kind = emptied_or fs "event" "[redacted]" e.kind;
  prev = emptied_or fs "prev" none e.prev;
  hash = emptied_or fs "hash" none e.hash;
  fields = map (empty_field fs) e.fields;
  redacted = some (already_redacted e.redacted ++ fs);
}

-- The file is written anew with the line replaced, and ends with a line break.
unfoldable pub replace_line : ℕ → List String → List Line → List Line
unfolding empty_fields
replace_line seq fs [] = []
replace_line seq fs (blank ∷ ls) = blank ∷ replace_line seq fs ls
replace_line seq fs (torn ∷ ls) = torn ∷ replace_line seq fs ls
replace_line seq fs (event e ∷ ls) =
    let more = replace_line seq fs ls in
    if e.seq == seq then event (empty_fields fs e) ∷ ls else event e ∷ more

unfoldable pub replace_event : ℕ → List String → List Partition → List Partition
unfolding replace_line find_line
replace_event seq fs [] = []
replace_event seq fs (p ∷ ps) =
    let more = replace_event seq fs ps in
    if is_there (find_line seq p.lines)
    then record p { lines = replace_line seq fs p.lines; unterminated = false } ∷ ps
    else p ∷ more

-- The fields of the record of a redaction.
abbrev pub redaction_fields : ℕ → List String → String → String → List (String × Value)
redaction_fields seq fs reason actor =
    ("redacted_seq", num seq)
    ∷ ("fields", strs fs)
    ∷ ("reason", str reason)
    ∷ ("actor", str actor)
    ∷ []

abbrev pub no_names : List String → Bool
no_names [] = true
no_names (f ∷ fs) = false

module _ (digest : Event → ℕ) (integrity : Integrity) where
  -- The checks on the event that was found, and the rewriting; then, through the ordinary path, the
  -- record of it.
  unfoldable pub redact_found :
      ℕ → List String → String → String → ℕ → String → Trail → Event → Redacting
  unfolding protected_fields replace_event append
  redact_found seq fs reason actor date ts trail e =
      if any_of (λ f. mem_str f (protected_fields e)) fs
      then refused unredactable
      else if any_of (λ f. not (has_field e f)) fs
      then refused absent
      else redacted_as
          (append digest integrity date ts "audit.redacted" (redaction_fields seq fs reason actor)
            (record trail { partitions = replace_event seq fs trail.partitions })).0
          (empty_fields fs e)

  unfoldable pub redact : ℕ → List String → String → String → ℕ → String → Trail → Redacting
  unfolding redact_found find_event
  redact seq fs reason actor date ts trail =
      if no_names fs then refused no_fields else elim (find_event seq trail.partitions) [
        | none ↦ refused no_event
        | some e ↦ redact_found seq fs reason actor date ts trail e
      ]
