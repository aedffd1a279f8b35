-- ===== src/Audit/Redact/Intact.antt =====
-- A redaction keeps the trail intact, and the trail accounts for it (dlpduck/audit.py, `redact`).
use mathlib.Core.Path.{subst}
use text.Mathlib.TextPositions.{eq_refl}
use dlpduck.Prelude.{
  ℕ, String, ◌≡◌, refl, sym, inl, inr, true, false, Option, none, some, List, [], ◌∷◌, ◌++◌, map,
  arith, str_eq, eq_iff, ◌==◌, Bool-cases, Option-cases, any_of, All, All-append, All-map,
}
use dlpduck.Audit.Trail.{
  Value, Event, Line, blank, torn, event, Partition, mem_str, lookup, all_lines,
}
use dlpduck.Audit.Verify.{explains}
use dlpduck.Audit.Sound.{
  step_prev, tell, told_by, Accounted, MarkerAccounted, LineAccounted, LaterAccounted, Clean,
  told_by-append, Accounted-left, Accounted-right, LineAccounted-left, LaterAccounted-snoc,
}
use dlpduck.Audit.Redact.{
  carriers, protected_fields, find_line, find_event, already_redacted, empty_field, empty_fields,
  replace_line, replace_event,
}

-- A protected name is not among names of which none is protected.
not_among :
    (k : String) (bad fs : List String)
    → mem_str k bad ≡ true
    → any_of (λ f. mem_str f bad) fs ≡ false
    → mem_str k fs ≡ false
not_among k bad [] h g = refl
not_among k bad (f ∷ fs) h g = elim (Bool-cases (str_eq k f)) [
  | inl e ↦
      let same : k ≡ f = (eq_iff k f).0 e in
      let m : mem_str f bad ≡ true = subst (λ x. mem_str x bad ≡ true) same h in ground arith
  | inr e ↦ rw e (not_among k bad fs h (ground arith))
]

lookup-empty_fields :
    (k : String) (fs : List String) (kvs : List (String × Value))
    → mem_str k fs ≡ false
    → lookup k (map (empty_field fs) kvs) ≡ lookup k kvs
unfolding lookup
lookup-empty_fields k fs [] h = refl
lookup-empty_fields k fs ((j, v) ∷ kvs) h = elim (Bool-cases (str_eq j k)) [
  | inl e ↦
      let same : j ≡ k = (eq_iff j k).0 e in
      let kept : mem_str j fs ≡ false = subst (λ x. mem_str x fs ≡ false) (sym same) h in
      rw (e, kept) refl
  | inr e ↦ rw e (lookup-empty_fields k fs kvs h)
]

-- What a redaction leaves of an event whose carriers are not among the names.
abbrev pub with_fields_emptied : List String → Event → Event
with_fields_emptied fs e = record e {
  fields = map (empty_field fs) e.fields;
  redacted = some (already_redacted e.redacted ++ fs);
}

carriers-protected :
    (k : String) (e : Event) → mem_str k carriers ≡ true → mem_str k (protected_fields e) ≡ true
unfolding protected_fields
carriers-protected k e h = elim (Bool-cases (str_eq e.kind "audit.redacted")) [
  | inl q ↦ rw q (ground (arith, h))
  | inr q ↦ rw q h
]

-- The guard on protected names keeps all that the chain is made of.
pub empty_fields-guarded :
    (fs : List String) (e : Event)
    → any_of (λ f. mem_str f (protected_fields e)) fs ≡ false
    → empty_fields fs e ≡ with_fields_emptied fs e
unfolding empty_fields
empty_fields-guarded fs e g =
    let spared : (k : String) → mem_str k carriers ≡ true → mem_str k fs ≡ false =
      λ k h. not_among k (protected_fields e) fs (carriers-protected k e h) g in
    rw
      (
        spared "seq" refl,
        spared "ts" refl,
        spared "event" refl,
        spared "prev" refl,
        spared "hash" refl,
      )
      refl

-- The guard on protected names keeps what the event itself records of another redaction.
explains-with_fields_emptied :
    (fs : List String) (e : Event)
    → any_of (λ f. mem_str f (protected_fields e)) fs ≡ false
    → explains (with_fields_emptied fs e) ≡ explains e
unfolding explains protected_fields
explains-with_fields_emptied fs e g = elim (Bool-cases (str_eq e.kind "audit.redacted")) [
  | inr q ↦ rw q refl
  | inl q ↦
      let s : mem_str "redacted_seq" fs ≡ false =
        not_among "redacted_seq" (protected_fields e) fs (rw (q, protected_fields) refl) g in
      let f : mem_str "fields" fs ≡ false =
        not_among "fields" (protected_fields e) fs (rw (q, protected_fields) refl) g in
      rw
        (
          q,
          lookup-empty_fields "redacted_seq" fs e.fields s,
          lookup-empty_fields "fields" fs e.fields f,
        )
        refl
]

pub find_line-seq : (seq : ℕ) (ls : List Line) (e : Event) → find_line seq ls ≡ some e → e.seq ≡ seq
unfolding find_line
find_line-seq seq [] e h = cc
find_line-seq seq (blank ∷ ls) e h = find_line-seq seq ls e h
find_line-seq seq (torn ∷ ls) e h = find_line-seq seq ls e h
find_line-seq seq (event f ∷ ls) e h = ground (arith, find_line-seq seq ls e)

-- What the rewriting does to the lines, told line by line: the first event with the number has its
-- fields emptied.
pub data Emptied (seq : ℕ) (fs : List String) : List Line → List Line → Type 0 where
  here :
      (e : Event) (ls : List Line)
      → e.seq ≡ seq
      → explains (with_fields_emptied fs e) ≡ explains e
      → Emptied seq fs (event e ∷ ls) (event (with_fields_emptied fs e) ∷ ls)
  there : {l : Line} {xs ys : List Line} → Emptied seq fs xs ys → Emptied seq fs (l ∷ xs) (l ∷ ys)

replace_line-Emptied :
    (seq : ℕ) (fs : List String) (ls : List Line) (e : Event)
    → find_line seq ls ≡ some e
    → any_of (λ f. mem_str f (protected_fields e)) fs ≡ false
    → Emptied seq fs ls (replace_line seq fs ls)
unfolding find_line replace_line
replace_line-Emptied seq fs [] e h g = cc
replace_line-Emptied seq fs (blank ∷ ls) e h g = there (replace_line-Emptied seq fs ls e h g)
replace_line-Emptied seq fs (torn ∷ ls) e h g = there (replace_line-Emptied seq fs ls e h g)
replace_line-Emptied seq fs (event f ∷ ls) e h g = elim (Bool-cases (f.seq == seq)) [
  | inl q ↦
      let same : f ≡ e = ground arith in
      let guarded : any_of (λ n. mem_str n (protected_fields f)) fs ≡ false =
        subst (λ x. any_of (λ n. mem_str n (protected_fields x)) fs ≡ false) (sym same) g in
      rw (q, empty_fields-guarded fs f guarded)
        (here f ls (ground arith) (explains-with_fields_emptied fs f guarded))
  | inr q ↦ rw q (there (replace_line-Emptied seq fs ls e (ground arith) g))
]

Emptied-append :
    (seq : ℕ) (fs : List String) {xs ys : List Line} (zs : List Line)
    → Emptied seq fs xs ys
    → Emptied seq fs (xs ++ zs) (ys ++ zs)
Emptied-append seq fs zs (here e ls p q) = here e (ls ++ zs) p q
Emptied-append seq fs zs (there r) = there (Emptied-append seq fs zs r)

Emptied-prepend :
    (seq : ℕ) (fs : List String) (ls : List Line) {xs ys : List Line}
    → Emptied seq fs xs ys
    → Emptied seq fs (ls ++ xs) (ls ++ ys)
Emptied-prepend seq fs [] r = r
Emptied-prepend seq fs (l ∷ ls) r = there (Emptied-prepend seq fs ls r)

pub replace_event-Emptied :
    (seq : ℕ) (fs : List String) (ps : List Partition) (e : Event)
    → find_event seq ps ≡ some e
    → any_of (λ f. mem_str f (protected_fields e)) fs ≡ false
    → Emptied seq fs (all_lines ps) (all_lines (replace_event seq fs ps))
unfolding find_event replace_event all_lines
replace_event-Emptied seq fs [] e h g = cc
replace_event-Emptied seq fs (p ∷ ps) e h g = elim (Option-cases (find_line seq p.lines)) [
  | inl q ↦ rw q (
      Emptied-prepend seq fs p.lines
        (replace_event-Emptied seq fs ps e (rw (← h) (ground arith)) g))
  | inr (f, q) ↦
      let same : f ≡ e = ground arith in
      rw q (
        Emptied-append seq fs (all_lines ps) (
          replace_line-Emptied seq fs p.lines f q
            (subst (λ x. any_of (λ n. mem_str n (protected_fields x)) fs ≡ false) (sym same) g)))
]

told_by-Emptied :
    (seq : ℕ) (fs : List String) {xs ys : List Line}
    → Emptied seq fs xs ys
    → told_by ys ≡ told_by xs
unfolding told_by
told_by-Emptied seq fs (here e ls p q) = rw q refl
told_by-Emptied seq fs (there r) = rw (told_by-Emptied seq fs r) refl

module _ (digest : Event → ℕ) where
  pub Emptied-Clean :
      (seq : ℕ) (fs : List String) (p : Option ℕ) {xs ys : List Line}
      → Emptied seq fs xs ys
      → Clean digest p xs
      → Clean digest p ys
  Emptied-Clean seq fs p (here e ls s q) c = ((c.0.0, tt), c.1)
  Emptied-Clean seq fs p (there {l = l} r) c = (c.0, Emptied-Clean seq fs (step_prev p l) r c.1)

All-self : (fs : List String) → All (λ f. mem_str f fs ≡ true) fs
All-self [] = tt
All-self (f ∷ fs) = (rw (eq_refl f) refl, All-map _ _ fs (λ g h. ground arith) (All-self fs))

told_itself : (seq : ℕ) (fs : List String) → Accounted ((seq, fs) ∷ []) seq fs
told_itself seq fs = (ground arith, All-map _ _ fs (λ f h. ground arith) (All-self fs))

-- The record of the redaction accounts for the fields that were emptied now; what was emptied
-- before is accounted for as it was.
explained_now :
    (told : List (ℕ × List String)) (seq : ℕ) (fs : List String) (m : Option (List String))
    → MarkerAccounted told seq m
    → Accounted (told ++ (seq, fs) ∷ []) seq (already_redacted m ++ fs)
explained_now told seq fs none h = Accounted-right told ((seq, fs) ∷ []) seq fs (told_itself seq fs)
explained_now told seq fs (some gs) h =
    let old = Accounted-left told ((seq, fs) ∷ []) seq gs h in
    let new = Accounted-right told ((seq, fs) ∷ []) seq fs (told_itself seq fs) in
    (old.0, All-append _ gs fs old.1 new.1)

pub Emptied-later :
    (seq : ℕ) (fs : List String) (l : Line) {xs ys : List Line}
    → Emptied seq fs xs ys
    → tell l ≡ (seq, fs) ∷ []
    → LineAccounted [] l
    → LaterAccounted xs
    → LaterAccounted (ys ++ l ∷ [])
unfolding told_by
Emptied-later seq fs l (here e ls s q) t a (h, rest) = (
  rw (told_by-append ls (l ∷ []), t, s)
      (explained_now (told_by ls) seq fs e.redacted
        (subst (λ n. MarkerAccounted (told_by ls) n e.redacted) s h)),
  LaterAccounted-snoc ls l rest a,
)
Emptied-later seq fs l (there {l = k} r) t a (h, rest) = (
  rw (told_by-append, told_by-Emptied seq fs r) (LineAccounted-left _ _ k h),
  Emptied-later seq fs l r t a rest,
)
