-- ===== src/Masking/Reveal.antt =====
-- `_rederive_hit_value` (dlpduck/console/app.py): the value of a hit, which is not stored, taken
-- from the text of the document again and checked against the masked form that is stored.
use native.Mathlib.Nat.{zero-add, suc-add, sub-zero}
use dlpduck.Prelude.{
  ℕ, zero, suc, ◌+◌, ◌-◌, ◌≤◌, ◌<◌, ◌≡◌, refl, sym, ap, ◌⊎◌, inl, inr, true, false, not, ◌||◌,
  Option, none, some, [], ◌∷◌, ◌++◌, arith, ltb, leb, ◌==◌, if◌then◌else◌, ltb→lt, ==_iff,
  Bool-cases, length, get_elem?, take, drop, replicate, keep_if, length-drop, All,
}
use dlpduck.Document.{Text, same_text, TextLine, DlpHit, DocumentText, full_text, offset_of}
use dlpduck.Document.Equality.{same_text_refl}
use dlpduck.Unicode.{Unicode}
use dlpduck.Rules.{Rule}
use dlpduck.Engine.{DlpEngine, group, make_hit}
use dlpduck.Document.Offsets.{at_line}
use dlpduck.Masking.{bullet, alnums, mask}

-- full_text[start:stop]
abbrev pub slice : Text → ℕ → ℕ → Text
slice t start stop = take (stop - start) (drop start t)

-- sum(1 for c in masked if c != "•")
abbrev pub kept : Text → ℕ
kept masked = length (keep_if (λ c. not (c == bullet)) masked)

abbrev checked : Unicode → Text → Text → Option Text
checked u masked candidate =
    if same_text (mask u candidate (kept masked)) masked then some candidate else none

abbrev rederive_from : Unicode → DlpHit → Text → Option ℕ → Option Text
rederive_from u hit t none = none
rederive_from u hit t (some base) =
    if ltb (length t) (base + hit.stop) || leb (base + hit.stop) (base + hit.start)
    then none
    else checked u hit.masked_text (slice t (base + hit.start) (base + hit.stop))

unfoldable pub rederive_hit_value : Unicode → Option DocumentText → DlpHit → Option Text
unfolding mask full_text offset_of
rederive_hit_value u none hit = none
rederive_hit_value u (some doc) hit =
    rederive_from u hit (full_text doc) (offset_of doc hit.line_number)

kept-bullets : (n : ℕ) → kept (replicate n bullet) ≡ 0
kept-bullets zero = refl
kept-bullets (suc n) = ground (arith, kept-bullets n)

kept-append : (s t : Text) → kept (s ++ t) ≡ kept s + kept t
kept-append [] t = omega arith
kept-append (c ∷ s) t = ground (arith, kept-append s t)

module _ (u : Unicode) (plain : u.is_alnum bullet ≡ false) where
  NoBullet : Text → Type 0
  NoBullet s = All (λ c. (c == bullet) ≡ false) s

  alnums-NoBullet : (raw : Text) → NoBullet (alnums u raw)
  unfolding NoBullet
  alnums-NoBullet [] = tt
  alnums-NoBullet (c ∷ raw) = elim (Bool-cases (u.is_alnum c)) [
    | inl e ↦ rw e (ground (arith, e, plain, ==_iff c bullet), alnums-NoBullet raw)
    | inr e ↦ rw e (alnums-NoBullet raw)
  ]

  kept-drop : (k : ℕ) (s : Text) → NoBullet s → kept (drop k s) ≡ length (drop k s)
  unfolding NoBullet
  kept-drop zero [] h = refl
  kept-drop zero (c ∷ s) h = ground (arith, h, kept-drop zero s)
  kept-drop (suc k) [] h = refl
  kept-drop (suc k) (c ∷ s) h = kept-drop k s h.1

  mask-hidden :
      (raw : Text) (keep : ℕ)
      → (keep == 0 || leb (length (alnums u raw)) (keep + 3)) ≡ true
      → mask u raw keep ≡ replicate (length (alnums u raw)) bullet
  unfolding mask
  mask-hidden raw keep e = ground (arith, e)

  mask-tail :
      (raw : Text) (keep : ℕ)
      → (keep == 0 || leb (length (alnums u raw)) (keep + 3)) ≡ false
      → (mask u raw keep
          ≡ replicate (length (alnums u raw) - keep) bullet
            ++ drop (length (alnums u raw) - keep) (alnums u raw))
        × (kept (mask u raw keep) ≡ keep)
  unfolding mask
  mask-tail raw keep e =
      let cut = length (alnums u raw) - keep in
      let shape : mask u raw keep ≡ replicate cut bullet ++ drop cut (alnums u raw) =
        ground (arith, e) in
      (
        shape,
        rw
            (
              shape,
              kept-append,
              kept-bullets,
              kept-drop cut (alnums u raw) (alnums-NoBullet raw),
              length-drop,
            )
            (ground (arith, e)),
      )

  -- Masking anew, by as many characters as are seen to be kept, gives the same.
  mask-kept : (raw : Text) (keep : ℕ) → mask u raw (kept (mask u raw keep)) ≡ mask u raw keep
  mask-kept raw keep = elim (Bool-cases (keep == 0 || leb (length (alnums u raw)) (keep + 3))) [
    | inl e ↦ rw (mask-hidden raw keep e, kept-bullets) (mask-hidden raw 0 refl)
    | inr e ↦ rw ((mask-tail raw keep e).1) refl
  ]

  pub rederive_hit_value_lem :
      (doc : DocumentText) (hit : DlpHit) (base keep : ℕ)
      → offset_of doc hit.line_number ≡ some base
      → hit.start < hit.stop
      → base + hit.stop ≤ length (full_text doc)
      → hit.masked_text ≡ mask u (slice (full_text doc) (base + hit.start) (base + hit.stop)) keep
      → rederive_hit_value u (some doc) hit
        ≡ some (slice (full_text doc) (base + hit.start) (base + hit.stop))
  unfolding rederive_hit_value
  rederive_hit_value_lem doc hit base keep at order fits masked =
      let v = slice (full_text doc) (base + hit.start) (base + hit.stop) in
      let same : same_text (mask u v (kept (mask u v keep))) (mask u v keep) ≡ true =
        rw (mask-kept v keep) (same_text_refl (mask u v keep)) in
      rw (at, masked) (ground (arith, order, fits, same))

drop-nil : (n : ℕ) → drop {A = ℕ} n [] ≡ []
drop-nil zero = refl
drop-nil (suc n) = refl

drop-sum : (m n : ℕ) (t : Text) → drop (m + n) t ≡ drop n (drop m t)
drop-sum zero n t = rw zero-add refl
drop-sum (suc m) n [] = rw suc-add (sym (drop-nil n))
drop-sum (suc m) n (c ∷ t) = rw suc-add (drop-sum m n t)

take-drop-take : (a k n : ℕ) (t : Text) → a + k ≤ n → take k (drop a (take n t)) ≡ take k (drop a t)
take-drop-take zero zero n t h = refl
take-drop-take zero (suc k) zero t h = absurd (omega (arith, h))
take-drop-take zero (suc k) (suc n) [] h = refl
take-drop-take zero (suc k) (suc n) (c ∷ t) h =
    ap (λ (s : Text). c ∷ s) (take-drop-take zero k n t (omega (arith, h)))
take-drop-take (suc a) k zero t h = absurd (omega (arith, h))
take-drop-take (suc a) k (suc n) [] h = refl
take-drop-take (suc a) k (suc n) (c ∷ t) h = take-drop-take a k n t (omega (arith, h))

-- A hit of a line, or of the text from that line on, of a document whose lines are numbered by
-- their places: what is revealed of it is the value that it was made of, if its end comes after its
-- start and lies in the text, and if a bullet is not alphanumeric. For a hit that ends within its
-- line, that is the value found in the line.
pub make_hit-rederived :
    {P : Type 0} (engine : DlpEngine P) (rule : Rule P) (doc : DocumentText) (line : TextLine)
    (base start stop : ℕ)
    → engine.unicode.is_alnum bullet ≡ false
    → get_elem? doc.lines line.line_number ≡ some line
    → offset_of doc line.line_number ≡ some base
    → start < stop
    → base + stop ≤ length (full_text doc)
    → (rederive_hit_value engine.unicode
          (some doc)
          (make_hit engine rule line start stop (group (full_text doc) (base + start, base + stop)))
        ≡ some (group (full_text doc) (base + start, base + stop)))
      × ((length line.text < stop)
          ⊎ (group (full_text doc) (base + start, base + stop) ≡ group line.text (start, stop)))
unfolding make_hit group offset_of full_text
make_hit-rederived engine rule doc line base start stop plain here at order fits = (
  rederive_hit_value_lem engine.unicode plain doc _ base rule.mask_keep at order fits refl,
  elim (Bool-cases (ltb (length line.text) stop)) [
    | inl e ↦ inl (ltb→lt (length line.text) stop e)
    | inr e ↦ inr (inline e)
  ],
)
  where
    t : Text
    t = full_text doc

    there : take (length line.text) (drop base t) ≡ line.text
    there = rw sub-zero at ((at_line 0 doc.lines line.line_number line base here at).1)

    width : (base + stop) - (base + start) ≡ stop - start
    width = omega arith

    inline :
        ltb (length line.text) stop ≡ false
        → group t (base + start, base + stop) ≡ group line.text (start, stop)
    inline e =
        rw (width, drop-sum, ← there)
          (sym (
            take-drop-take start (stop - start) (length line.text) (drop base t)
              (ground (arith, e, order))))
