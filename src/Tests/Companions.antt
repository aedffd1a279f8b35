-- ===== src/Tests/Companions.antt =====
-- Companions and the allowlist on concrete inputs.
use dlpduck.Prelude.{
  ℕ, ◌≡◌, refl, inl, inr, Bool, true, false, none, some, List, [], ◌∷◌, arith, if◌then◌else◌,
  any_of, All,
}
use dlpduck.Document.{Text, same_text}
use dlpduck.Metadata.{
  words, object, Members, no_member, member, get_field, split_dots, descend, resolve, Printing,
  bounded, allow_into, allowlist, has_word, doctype, Parsed, fields_of, malformed, doctype_refused,
  parse_xml,
}
use dlpduck.Metadata.Allowed.{bounded_value, get_field-allowlist, IsShort, allowlist-IsShort}
use dlpduck.Metadata.Guard.{IsPlain, utf_16, parse_xml-guarded}

abbrev plain_json : Printing
plain_json = record { dumps = λ v. some []; str = λ v. [] }

-- {"a": {"b": "x"}, "b": "y"}
abbrev nested : Members
nested =
    member (b'a' ∷ []) (object (member (b'b' ∷ []) (words (b'x' ∷ [])) no_member))
      (member (b'b' ∷ []) (words (b'y' ∷ [])) no_member)

abbrev a_dot_b : Text
a_dot_b = b'a' ∷ b'.' ∷ b'b' ∷ []

kept_nested : allowlist plain_json nested (a_dot_b ∷ []) ≡ (a_dot_b, words (b'x' ∷ [])) ∷ []
unfolding allowlist allow_into resolve descend split_dots bounded
kept_nested = refl

get_field-allowlist_example : get_field a_dot_b (allowlist plain_json nested (a_dot_b ∷ [])) ≡ (
    if any_of (same_text a_dot_b) (a_dot_b ∷ [])
    then bounded_value plain_json (resolve nested a_dot_b)
    else none)
get_field-allowlist_example = get_field-allowlist plain_json nested (a_dot_b ∷ []) a_dot_b

allowlist-IsShort_example : All (IsShort plain_json) (allowlist plain_json nested (a_dot_b ∷ []))
allowlist-IsShort_example = allowlist-IsShort plain_json nested (a_dot_b ∷ [])

abbrev lower_doctype : Text
lower_doctype = b'd' ∷ b'o' ∷ b'c' ∷ b't' ∷ b'Y' ∷ b'P' ∷ b'E' ∷ b'>' ∷ []

abbrev read_nothing : List ℕ → Parsed
read_nothing content = fields_of no_member

abbrev never_blank : List ℕ → Bool
never_blank content = false

word_there : has_word doctype lower_doctype ≡ true
unfolding has_word
word_there = refl

abbrev declared : Text
declared = 65279 ∷ b'<' ∷ b'!' ∷ b'D' ∷ b'O' ∷ b'C' ∷ b'T' ∷ b'Y' ∷ b'P' ∷ b'E' ∷ []

declared-IsPlain : All IsPlain declared
declared-IsPlain = (
  inr refl,
  (
    inl (omega arith),
    (
      inl (omega arith),
      (
        inl (omega arith),
        (
          inl (omega arith),
          (
            inl (omega arith),
            (inl (omega arith), (inl (omega arith), (inl (omega arith), (inl (omega arith), tt)))),
          ),
        ),
      ),
    ),
  ),
)

parse_xml-guarded_example :
    (parse_xml never_blank read_nothing (b'?' ∷ b'<' ∷ b'!' ∷ 32 ∷ lower_doctype)
      ≡ malformed doctype_refused)
    × (parse_xml never_blank read_nothing (utf_16 declared) ≡ read_nothing (utf_16 declared))
parse_xml-guarded_example =
    parse_xml-guarded never_blank read_nothing (b'?' ∷ []) (32 ∷ []) lower_doctype declared
      (refl, tt) word_there refl declared-IsPlain refl
