-- ===== src/Metadata/Allowed.antt =====
-- What the allowlist keeps (dlpduck/metadata.py).
use mathlib.Core.Path.{subst}
use dlpduck.Prelude.{
  ℕ, zero, suc, ◌+◌, ◌≤◌, ◌≡◌, refl, ◌⊎◌, inl, inr, false, Option, none, some, List, [], ◌∷◌, arith,
  ltb, if◌then◌else◌, Bool-cases, Option-cases, length, take, any_of, length-append, All,
}
use dlpduck.Document.{Text, same_text}
use dlpduck.Document.Equality.{same_text_refl, same_text-same, same_text_iff}
use dlpduck.Metadata.{
  Value, words, object, sequence, atom, Members, Fields, get_field, put_field, resolve,
  max_value_chars, truncation_mark, Printing, serialized, clip, clipped, bounded, allow_into,
  allowlist,
}

pub get_field-put_field :
    (j k : Text) (v : Value) (fs : Fields)
    → get_field j (put_field k v fs) ≡ (if same_text k j then some v else get_field j fs)
get_field-put_field j k v [] = refl
get_field-put_field j k v ((i, u) ∷ fs) =
    ground
      (arith, same_text_iff k j, same_text_iff i k, same_text_iff i j, get_field-put_field j k v fs)

-- The value of a key that the allowlist names, cut to its bound.
abbrev pub bounded_value : Printing → Option Value → Option Value
bounded_value py none = none
bounded_value py (some v) = some (bounded py v)

abbrev Agrees : Printing → Members → Text → Fields → Type 0
Agrees py raw j kept =
    (get_field j kept ≡ none) ⊎ (get_field j kept ≡ bounded_value py (resolve raw j))

abbrev keep_one : Printing → Text → Option Value → Fields → Fields
keep_one py key none kept = kept
keep_one py key (some v) kept = put_field key (bounded py v) kept

keep_own :
    (py : Printing) (key : Text) (o : Option Value) (kept : Fields)
    → (get_field key kept ≡ none) ⊎ (get_field key kept ≡ bounded_value py o)
    → get_field key (keep_one py key o kept) ≡ bounded_value py o
keep_own py key none kept (inl h) = h
keep_own py key none kept (inr h) = h
keep_own py key (some v) kept h =
    rw (get_field-put_field key key (bounded py v) kept, same_text_refl key) refl

keep_other :
    (py : Printing) (key j : Text) (o : Option Value) (kept : Fields)
    → same_text j key ≡ false
    → get_field j (keep_one py key o kept) ≡ get_field j kept
keep_other py key j none kept h = refl
keep_other py key j (some v) kept h =
    ground (
      arith,
      same_text_iff j key,
      same_text_iff key j,
      get_field-put_field j key (bounded py v) kept,
    )

get_field-keep_one :
    (py : Printing) (raw : Members) (key j : Text) (kept : Fields)
    → Agrees py raw j kept
    → get_field j (keep_one py key (resolve raw key) kept)
      ≡ (if same_text j key then bounded_value py (resolve raw j) else get_field j kept)
get_field-keep_one py raw key j kept h = elim (Bool-cases (same_text j key)) [
  | inl e ↦ rw e (
      subst
        (λ k. get_field j (keep_one py k (resolve raw k) kept) ≡ bounded_value py (resolve raw j))
        (same_text-same j key e) (keep_own py j (resolve raw j) kept h))
  | inr e ↦ rw e (keep_other py key j (resolve raw key) kept e)
]

allow_into-step :
    (py : Printing) (raw : Members) (key : Text) (keys : List Text) (kept : Fields)
    → allow_into py raw (key ∷ keys) kept
      ≡ allow_into py raw keys (keep_one py key (resolve raw key) kept)
unfolding allow_into
allow_into-step py raw key keys kept = elim (Option-cases (resolve raw key)) [
  | inl e ↦ rw e refl
  | inr (v, e) ↦ rw e refl
]

get_field-allow_into :
    (py : Printing) (raw : Members) (keys : List Text) (kept : Fields) (j : Text)
    → Agrees py raw j kept
    → get_field j (allow_into py raw keys kept)
      ≡ (if any_of (same_text j) keys then bounded_value py (resolve raw j) else get_field j kept)
get_field-allow_into py raw [] kept j h = unfold allow_into in refl
get_field-allow_into py raw (key ∷ keys) kept j h =
    rw (allow_into-step py raw key keys kept) (elim (Bool-cases (same_text j key)) [
      | inl e ↦
          let one : get_field j (keep_one py key (resolve raw key) kept)
              ≡ bounded_value py (resolve raw j) =
            rw (get_field-keep_one py raw key j kept h, e) refl in
          ground (
            arith,
            one,
            get_field-allow_into py raw keys (keep_one py key (resolve raw key) kept) j (inr one),
          )
      | inr e ↦
          let one : get_field j (keep_one py key (resolve raw key) kept) ≡ get_field j kept =
            rw (get_field-keep_one py raw key j kept h, e) refl in
          ground (
            arith,
            one,
            get_field-allow_into py raw keys (keep_one py key (resolve raw key) kept) j (rw one h),
          )
    ])

-- The allowlist keeps of a document exactly the values that the configured names lead to, each
-- under its name as it is configured and cut to its bound, and nothing under any other name.
pub get_field-allowlist :
    (py : Printing) (raw : Members) (fields : List Text) (key : Text)
    → get_field key (allowlist py raw fields)
      ≡ (if any_of (same_text key) fields then bounded_value py (resolve raw key) else none)
unfolding allowlist
get_field-allowlist py raw fields key = get_field-allow_into py raw fields [] key (inl refl)

-- What a value comes to in the index: the length of a str, or of anything else as JSON.
abbrev pub stored_size : Printing → Value → ℕ
stored_size py (words s) = length s
stored_size py (object ms) = length (serialized py (object ms))
stored_size py (sequence xs) = length (serialized py (sequence xs))
stored_size py (atom s) = length (serialized py (atom s))

abbrev pub IsShort : Printing → Text × Value → Type 0
IsShort py f = stored_size py f.1 ≤ max_value_chars + length truncation_mark

length-take : {A : Type 0} (n : ℕ) (xs : List A) → length (take n xs) ≤ n
length-take zero xs = omega arith
length-take (suc n) [] = omega arith
length-take (suc n) (x ∷ xs) = omega (arith, length-take n xs)

length-clip : (s : Text) → length (clip s) ≤ max_value_chars + length truncation_mark
length-clip s =
    omega
      (arith, length-append (take max_value_chars s) truncation_mark, length-take max_value_chars s)

clipped-IsShort :
    (py : Printing) (key s : Text) (v : Value)
    → stored_size py v ≡ length s
    → IsShort py (key, clipped s v)
clipped-IsShort py key s v e = elim (Bool-cases (ltb max_value_chars (length s))) [
  | inl long ↦ rw long (length-clip s)
  | inr short ↦ rw short ground (arith, e)
]

bounded-IsShort : (py : Printing) (key : Text) (v : Value) → IsShort py (key, bounded py v)
unfolding bounded
bounded-IsShort py key (words s) = clipped-IsShort py key s (words s) refl
bounded-IsShort py key (object ms) = clipped-IsShort py key _ (object ms) refl
bounded-IsShort py key (sequence xs) = clipped-IsShort py key _ (sequence xs) refl
bounded-IsShort py key (atom s) = clipped-IsShort py key _ (atom s) refl

put_field-IsShort :
    (py : Printing) (key : Text) (v : Value) (fs : Fields)
    → All (IsShort py) fs
    → All (IsShort py) (put_field key (bounded py v) fs)
put_field-IsShort py key v [] h = (bounded-IsShort py key v, tt)
put_field-IsShort py key v ((j, u) ∷ fs) h = elim (Bool-cases (same_text j key)) [
  | inl e ↦ rw e (bounded-IsShort py j v, h.1)
  | inr e ↦ rw e (h.0, put_field-IsShort py key v fs h.1)
]

keep_one-IsShort :
    (py : Printing) (key : Text) (o : Option Value) (kept : Fields)
    → All (IsShort py) kept
    → All (IsShort py) (keep_one py key o kept)
keep_one-IsShort py key none kept h = h
keep_one-IsShort py key (some v) kept h = put_field-IsShort py key v kept h

allow_into-IsShort :
    (py : Printing) (raw : Members) (keys : List Text) (kept : Fields)
    → All (IsShort py) kept
    → All (IsShort py) (allow_into py raw keys kept)
allow_into-IsShort py raw [] kept h = unfold allow_into in h
allow_into-IsShort py raw (key ∷ keys) kept h = rw (allow_into-step py raw key keys kept) (
    allow_into-IsShort py raw keys (keep_one py key (resolve raw key) kept)
      (keep_one-IsShort py key (resolve raw key) kept h))

-- Whatever a companion or a PDF declares, each value that the allowlist keeps is at most 4096
-- characters and the mark of a truncation long: a str as it is, anything else as it is serialized.
pub allowlist-IsShort :
    (py : Printing) (raw : Members) (fields : List Text)
    → All (IsShort py) (allowlist py raw fields)
unfolding allowlist
allowlist-IsShort py raw fields = allow_into-IsShort py raw fields [] tt
