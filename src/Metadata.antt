-- ===== src/Metadata.antt =====
-- dlpduck/metadata.py: the decoded values of a companion, the allowlist, and two of the parsers.
pub mod Allowed
pub mod Guard
use dlpduck.Prelude.{
  ℕ, ◌+◌, String, Bool, true, false, ◌&&◌, ◌||◌, Option, none, some, List, [], ◌∷◌, ◌++◌, ltb, leb,
  ◌==◌, if◌then◌else◌, length, take,
}
use dlpduck.Document.{Text, same_text}

-- A decoded value: a str, a dict, a list, or a number, a boolean or None by its JSON text.
mutual
  pub data Value : Type 0 where
    words : Text → Value
    object : Members → Value
    sequence : Items → Value
    atom : Text → Value

  pub data Items : Type 0 where
    no_item : Items
    item : Value → Items → Items

  pub data Members : Type 0 where
    no_member : Members
    member : Text → Value → Members → Members

-- A flat dict.
abbrev pub Fields : Type 0
Fields = List (Text × Value)

abbrev pub get_member : Text → Members → Option Value
get_member k no_member = none
get_member k (member j v ms) = if same_text j k then some v else get_member k ms

abbrev pub get_field : Text → Fields → Option Value
get_field k [] = none
get_field k ((j, v) ∷ fs) = if same_text j k then some v else get_field k fs

abbrev pub put_field : Text → Value → Fields → Fields
put_field k v [] = (k, v) ∷ []
put_field k v ((j, u) ∷ fs) = if same_text j k then (j, v) ∷ fs else (j, u) ∷ put_field k v fs

abbrev put_member : Text → Value → Members → Members
put_member k v no_member = member k v no_member
put_member k v (member j u ms) =
    if same_text j k then member j v ms else member j u (put_member k v ms)

-- {**a, **b}
unfoldable pub merge : Members → Members → Members
merge ms no_member = ms
merge ms (member k v ns) = merge (put_member k v ms) ns

abbrev push_char : ℕ → List Text → List Text
push_char c [] = (c ∷ []) ∷ []
push_char c (p ∷ ps) = (c ∷ p) ∷ ps

-- path.split(".")
unfoldable pub split_dots : Text → List Text
split_dots [] = [] ∷ []
split_dots (c ∷ s) = let rest = split_dots s in if c == b'.' then [] ∷ rest else push_char c rest

-- `_resolve`, where `_MISSING` is none.
unfoldable pub descend : Value → List Text → Option Value
descend v [] = some v
descend (words s) (p ∷ ps) = none
descend (sequence xs) (p ∷ ps) = none
descend (atom s) (p ∷ ps) = none
descend (object ms) (p ∷ ps) = elim (get_member p ms) [ none ↦ none | some v ↦ descend v ps ]

unfoldable pub resolve : Members → Text → Option Value
unfolding descend split_dots
resolve raw path = descend (object raw) (split_dots path)

-- MAX_VALUE_CHARS
abbrev pub max_value_chars : ℕ
max_value_chars = 4096

-- "…[truncated]"
abbrev pub truncation_mark : Text
truncation_mark =
    8230 ∷ b'[' ∷ b't' ∷ b'r' ∷ b'u' ∷ b'n' ∷ b'c' ∷ b'a' ∷ b't' ∷ b'e' ∷ b'd' ∷ b']' ∷ []

-- json.dumps, with none for a TypeError, and str.
pub record Printing : Type 0 where
  pub dumps : Value → Option Text
  pub str : Value → Text

abbrev pub serialized : Printing → Value → Text
serialized py v = elim (py.dumps v) [ none ↦ py.str v | some s ↦ s ]

abbrev pub clip : Text → Text
clip s = take max_value_chars s ++ truncation_mark

abbrev pub clipped : Text → Value → Value
clipped s v = if ltb max_value_chars (length s) then words (clip s) else v

-- `_bounded`
unfoldable pub bounded : Printing → Value → Value
bounded py (words s) = clipped s (words s)
bounded py (object ms) = clipped (serialized py (object ms)) (object ms)
bounded py (sequence xs) = clipped (serialized py (sequence xs)) (sequence xs)
bounded py (atom s) = clipped (serialized py (atom s)) (atom s)

unfoldable pub allow_into : Printing → Members → List Text → Fields → Fields
unfolding resolve bounded
allow_into py raw [] kept = kept
allow_into py raw (key ∷ keys) kept =
    allow_into py raw keys
      (elim (resolve raw key) [ none ↦ kept | some v ↦ put_field key (bounded py v) kept ])

unfoldable pub allowlist : Printing → Members → List Text → Fields
unfolding allow_into
allowlist py raw fields = allow_into py raw fields []

-- str.strip and str.splitlines, and the decoding of UTF-8 that leaves out what it cannot read.
pub record Reading : Type 0 where
  pub strip : Text → Text
  pub splitlines : Text → List Text
  pub decode : List ℕ → Text

-- line.split(c, 1), where the line has the character.
unfoldable pub split_once : ℕ → Text → Option (Text × Text)
split_once c [] = none
split_once c (x ∷ s) =
    let rest = split_once c s in
    if x == c then some ([], s) else elim rest [ none ↦ none | some (k, v) ↦ some (x ∷ k, v) ]

abbrev pub put_pair : Reading → Fields → Text × Text → Fields
put_pair py fs (k, v) = put_field (py.strip k) (words (py.strip v)) fs

unfoldable pub read_line : Reading → Fields → Text → Fields
unfolding split_once
read_line py fs line = elim (split_once b'=' line) [
  | some pair ↦ put_pair py fs pair
  | none ↦ elim (split_once b':' line) [ some pair ↦ put_pair py fs pair | none ↦ fs ]
]

unfoldable pub read_lines : Reading → Fields → List Text → Fields
unfolding read_line
read_lines py fs [] = fs
read_lines py fs (line ∷ lines) = read_lines py (read_line py fs line) lines

-- `KeyValueTextParser.parse`
unfoldable pub parse_text : Reading → List ℕ → Fields
unfolding read_lines
parse_text py content = read_lines py [] (py.splitlines (py.decode content))

-- A byte of \s in a pattern over bytes.
abbrev pub is_space : ℕ → Bool
is_space c = (leb 9 c && leb c 13) || c == 32

abbrev is_letter : ℕ → ℕ → Bool
is_letter upper c = c == upper || c == upper + 32

-- A word of upper-case letters, in either case.
unfoldable pub has_word : Text → List ℕ → Bool
has_word [] s = true
has_word (u ∷ w) [] = false
has_word (u ∷ w) (c ∷ s) = is_letter u c && has_word w s

abbrev pub doctype : Text
doctype = b'D' ∷ b'O' ∷ b'C' ∷ b'T' ∷ b'Y' ∷ b'P' ∷ b'E' ∷ []

unfoldable pub after_spaces : List ℕ → Bool
unfolding has_word
after_spaces [] = false
after_spaces (c ∷ s) =
    let rest = after_spaces s in
    if has_word doctype (c ∷ s) then true else if is_space c then rest else false

abbrev pub after_bang : List ℕ → Bool
after_bang [] = false
after_bang (c ∷ s) = c == b'!' && after_spaces s

-- `_DOCTYPE.search(content)`
unfoldable pub has_doctype : List ℕ → Bool
unfolding after_spaces
has_doctype [] = false
has_doctype (c ∷ s) = (c == b'<' && after_bang s) || has_doctype s

-- `XmlMetadataParser.parse`, where `from_string` stands for the ElementTree parser and what is made
-- of its tree, or what it raises.
pub data Parsed : Type 0 where
  fields_of : Members → Parsed
  malformed : String → Parsed

abbrev pub doctype_refused : String
doctype_refused = "companion XML declares a DOCTYPE"

unfoldable pub parse_xml : (List ℕ → Bool) → (List ℕ → Parsed) → List ℕ → Parsed
unfolding has_doctype
parse_xml is_blank from_string content =
    if is_blank content
    then fields_of no_member
    else if has_doctype content
    then malformed doctype_refused
    else from_string content
