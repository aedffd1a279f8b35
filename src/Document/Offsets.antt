-- ===== src/Document/Offsets.antt =====
-- Where lines begin in the joined text: `offset_of`, `line_at` and `full_text` of dlpduck/types.py
-- agree with one another.
use Prim.Native.Nat.{min}
use native.Mathlib.Nat.{sub-zero}
use dlpduck.Prelude.{
  ℕ, zero, suc, ◌+◌, ◌-◌, ◌≤◌, ◌<◌, ◌≡◌, refl, sym, ap, some, List, [], ◌∷◌, map, arith, length,
  get_elem?, take, drop, drop-append, take-append,
}
use dlpduck.Document.{
  TextLine, DocumentText, line_text, join_lines, full_text, offsets_from, bisect_right, line_at,
  offset_of,
}

take-length {ℓ} : {A : Type ℓ} (xs : List A) → take (length xs) xs ≡ xs
take-length [] = refl
take-length {A} (x ∷ xs) = ap (λ (t : List A). x ∷ t) (take-length xs)

-- The offset of a line, relative to the counter's start.
pub at_line :
    (n : ℕ) (ls : List TextLine) (i : ℕ) (line : TextLine) (off : ℕ)
    → get_elem? ls i ≡ some line
    → get_elem? (offsets_from n ls) i ≡ some off
    → (n ≤ off)
      × (take (length line.text) (drop (off - n) (join_lines (map line_text ls))) ≡ line.text)
unfolding offsets_from join_lines
at_line n [] i line off hl ho = cc
at_line n (l ∷ []) (suc i) line off hl ho = cc
at_line n (l ∷ []) zero line off hl ho =
    let e : l ≡ line = cc in
    let d : off - n ≡ 0 = ground arith in (ground arith, rw (← e, d) (take-length l.text))
at_line n (l ∷ m ∷ rest) zero line off hl ho =
    let e : l ≡ line = cc in
    let d : off - n ≡ 0 = ground arith in (ground arith, rw (← e, d) (take-append l.text _))
at_line n (l ∷ m ∷ rest) (suc i) line off hl ho =
    let (low, found) = at_line (n + length l.text + 1) (m ∷ rest) i line off hl ho in
    let d : off - n ≡ length l.text + suc (off - (n + length l.text + 1)) = omega arith in
    (omega arith, rw (d, drop-append) found)

bisect_right-below :
    (n : ℕ) (ls : List TextLine) (x : ℕ) → x < n → bisect_right (offsets_from n ls) x ≡ 0
unfolding offsets_from bisect_right
bisect_right-below n [] x h = refl
bisect_right-below n (l ∷ ls) x h = ground arith

offsets_from-le :
    (n : ℕ) (ls : List TextLine) (i : ℕ) (off : ℕ)
    → get_elem? (offsets_from n ls) i ≡ some off
    → n ≤ off
unfolding offsets_from
offsets_from-le n [] i off h = cc
offsets_from-le n (l ∷ ls) zero off h = ground arith
offsets_from-le n (l ∷ ls) (suc i) off h =
    omega (arith, offsets_from-le (n + length l.text + 1) ls i off h)

bisect_right-offsets :
    (n : ℕ) (ls : List TextLine) (i : ℕ) (line : TextLine) (off k : ℕ)
    → get_elem? ls i ≡ some line
    → get_elem? (offsets_from n ls) i ≡ some off
    → k ≤ length line.text
    → bisect_right (offsets_from n ls) (off + k) ≡ suc i
unfolding offsets_from bisect_right
bisect_right-offsets n [] i line off k hl ho hk = cc
bisect_right-offsets n (l ∷ ls) zero line off k hl ho hk =
    let e : l ≡ line = cc in
    let o : n ≡ off = ground arith in
    let b : length line.text ≡ length l.text = ap (λ (t : TextLine). length t.text) (sym e) in
    ground (arith, bisect_right-below (n + length l.text + 1) ls (off + k) (omega arith))
bisect_right-offsets n (l ∷ ls) (suc i) line off k hl ho hk = ground (
  arith,
  bisect_right-offsets (n + length l.text + 1) ls i line off k hl ho hk,
  offsets_from-le (n + length l.text + 1) ls i off ho,
)

-- Every line of the document has an offset.
offsets_from-total :
    (n : ℕ) (ls : List TextLine) (i : ℕ) (line : TextLine)
    → get_elem? ls i ≡ some line
    → (off : ℕ) × (get_elem? (offsets_from n ls) i ≡ some off)
unfolding offsets_from
offsets_from-total n [] i line h = cc
offsets_from-total n (l ∷ ls) zero line h = (n, refl)
offsets_from-total n (l ∷ ls) (suc i) line h =
    offsets_from-total (n + length l.text + 1) ls i line h

get_elem?-lt {ℓ} :
    {A : Type ℓ} (xs : List A) (i : ℕ) (x : A) → get_elem? xs i ≡ some x → i < length xs
get_elem?-lt [] i x h = cc
get_elem?-lt (y ∷ xs) zero x h = omega arith
get_elem?-lt (y ∷ xs) (suc i) x h = omega (arith, get_elem?-lt xs i x h)

-- Line `i` of a document has an offset; the joined text holds the line's text from there on; and
-- every position from there to the end of the line, its line break included, is mapped back to it.
pub offset_of-line_at :
    (doc : DocumentText) (i : ℕ) (line : TextLine)
    → get_elem? doc.lines i ≡ some line
    → (off : ℕ) × (offset_of doc i ≡ some off)
      × (take (length line.text) (drop off (full_text doc)) ≡ line.text)
      × ((k : ℕ) → k ≤ length line.text → line_at doc (off + k) ≡ some line)
unfolding offset_of full_text line_at
offset_of-line_at doc i line h =
    let (off, ho) = offsets_from-total 0 doc.lines i line h in
    let lt : i < length doc.lines = get_elem?-lt doc.lines i line h in
    (
      off,
      ho,
      rw sub-zero at ((at_line 0 doc.lines i line off h ho).1),
      λ k hk.
          let m : min (suc i - 1) (length doc.lines - 1) ≡ i = omega arith in
          rw (bisect_right-offsets 0 doc.lines i line off k h ho hk, m) h,
    )
