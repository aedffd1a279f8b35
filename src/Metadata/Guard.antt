-- ===== src/Metadata/Guard.antt =====
-- The refusal of a document type declaration (dlpduck/metadata.py).
use dlpduck.Prelude.{
  ℕ, ◌/◌, ◌%◌, ◌<◌, ◌≡◌, refl, ◌⊎◌, inl, inr, Bool, true, false, List, [], ◌∷◌, ◌++◌, arith,
  Bool-cases, All,
}
use dlpduck.Document.{Text}
use dlpduck.Metadata.{
  is_space, has_word, doctype, after_spaces, has_doctype, Parsed, malformed, doctype_refused,
  parse_xml,
}

after_spaces-spaces :
    (spaces rest : List ℕ)
    → All (λ (c : ℕ). is_space c ≡ true) spaces
    → has_word doctype rest ≡ true
    → after_spaces (spaces ++ rest) ≡ true
unfolding after_spaces
after_spaces-spaces [] [] h w = w
after_spaces-spaces [] (c ∷ rest) h w = rw w refl
after_spaces-spaces (c ∷ spaces) rest h w =
    elim (Bool-cases (has_word doctype (c ∷ spaces ++ rest))) [
      | inl e ↦ rw e refl
      | inr e ↦ rw (e, h.0) (after_spaces-spaces spaces rest h.1 w)
    ]

-- A declaration is found wherever it stands: after "<!", with any white space before the word,
-- whose letters may be of either case.
has_doctype-found :
    (before spaces rest : List ℕ)
    → All (λ (c : ℕ). is_space c ≡ true) spaces
    → has_word doctype rest ≡ true
    → has_doctype (before ++ b'<' ∷ b'!' ∷ spaces ++ rest) ≡ true
unfolding has_doctype
has_doctype-found [] spaces rest h w = ground (arith, after_spaces-spaces spaces rest h w)
has_doctype-found (c ∷ before) spaces rest h w =
    ground (arith, has_doctype-found before spaces rest h w)

-- A character of one byte, or the byte order mark.
abbrev pub IsPlain : ℕ → Type 0
IsPlain c = (c < 256) ⊎ (c ≡ 65279)

-- The code units of UTF-16, the low byte of each first.
abbrev pub utf_16 : Text → List ℕ
utf_16 [] = []
utf_16 (c ∷ s) = c % 256 ∷ c / 256 ∷ utf_16 s

-- In UTF-16 the guard sees no declaration in any text of characters of one byte, with or without a
-- byte order mark.
has_doctype-utf_16 : (s : Text) → All IsPlain s → has_doctype (utf_16 s) ≡ false
unfolding has_doctype
has_doctype-utf_16 [] h = refl
has_doctype-utf_16 (c ∷ s) h = ground (arith, h.0, has_doctype-utf_16 s h.1)

-- XML that declares a document type in any mix of cases, with any white space after "<!", is
-- refused without being parsed when each of its bytes is a character; but a text in UTF-16, of
-- characters below 256 and the byte order mark, goes to the parser whatever it declares.
pub parse_xml-guarded :
    (is_blank : List ℕ → Bool) (from_string : List ℕ → Parsed) (before spaces rest : List ℕ)
    (s : Text)
    → All (λ (c : ℕ). is_space c ≡ true) spaces
    → has_word doctype rest ≡ true
    → is_blank (before ++ b'<' ∷ b'!' ∷ spaces ++ rest) ≡ false
    → All IsPlain s
    → is_blank (utf_16 s) ≡ false
    → (parse_xml is_blank from_string (before ++ b'<' ∷ b'!' ∷ spaces ++ rest)
        ≡ malformed doctype_refused)
      × (parse_xml is_blank from_string (utf_16 s) ≡ from_string (utf_16 s))
unfolding parse_xml
parse_xml-guarded is_blank from_string before spaces rest s sp w nb small nb' = (
  rw (nb, has_doctype-found before spaces rest sp w) refl,
  rw (nb', has_doctype-utf_16 s small) refl,
)
