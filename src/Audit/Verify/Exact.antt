-- ===== src/Audit/Verify/Exact.antt =====
-- `verify` finds no break exactly in the trails that are intact (dlpduck/audit.py).
use mathlib.Core.Path.{subst}
use mathlib.Core.List.{append_assoc, append-nil}
use dlpduck.Prelude.{
  ℕ, ◌+◌, String, ◌≡◌, refl, sym, ap, ◌∙◌, ◌↔◌, inl, inr, true, not, Option, none, some, List, [],
  ◌∷◌, ◌++◌, arith, if◌then◌else◌, Bool-cases, Option-cases, keep_if, All, All-append,
  append-eq-nil,
}
use dlpduck.Audit.Trail.{
  Event, Line, blank, torn, event, Partition, Trail, chained, opt_eq, all_lines,
}
use dlpduck.Audit.Verify.{
  Place, ChainBroken, unreadable, prev_mismatch, Redaction, Walk, is_explained, is_accounted,
  unaccounted_breaks, redaction_breaks, all_redaction_breaks, checkpoint_hash, seal_breaks,
  walk_event, walk_line, walk_lines, walk_partitions, verify,
}
use dlpduck.Audit.Sound.{
  step_prev, final_prev, told_by, Accounted, AllAccounted, Sealed, Clean, Clean-append,
  told_by-append, LaterAccounted-all, IsIntact,
}

opt_eq_iff : (a b : Option ℕ) → (opt_eq a b ≡ true) ↔ (a ≡ b)
opt_eq_iff none none = (λ h. refl, λ h. refl)
opt_eq_iff none (some b) = (λ h. cc, λ h. cc)
opt_eq_iff (some a) none = (λ h. cc, λ h. cc)
opt_eq_iff (some a) (some b) = ground arith

-- What a part of the walk has done to its variables, told by the lines that it walked.
record Walked (digest : Event → ℕ) (w w' : Walk) (ls : List Line) : Type 0 where
  prev : w'.prev ≡ final_prev w.prev ls
  explained : w'.explained ≡ w.explained ++ told_by ls
  breaks : (w'.breaks ≡ []) ↔ ((w.breaks ≡ []) × Clean digest w.prev ls)
  redactions :
      (told : List (ℕ × List String))
      → (all_redaction_breaks told w'.redactions ≡ [])
        ↔ ((all_redaction_breaks told w.redactions ≡ []) × AllAccounted told ls)

final_prev-append :
    (p : Option ℕ) (xs ys : List Line) → final_prev p (xs ++ ys) ≡ final_prev (final_prev p xs) ys
unfolding final_prev
final_prev-append p [] ys = refl
final_prev-append p (x ∷ xs) ys = final_prev-append (step_prev p x) xs ys

no_breaks : (at : Place) (fs : List String) → (unaccounted_breaks at fs ≡ []) ↔ (fs ≡ [])
unfolding unaccounted_breaks
no_breaks at [] = (λ h. refl, λ h. refl)
no_breaks at (f ∷ fs) = (λ h. cc, λ h. cc)

All-parts {ℓ κ} :
    {A : Type ℓ} (P : A → Type κ) (xs ys : List A) → All P (xs ++ ys) → All P xs × All P ys
All-parts P [] ys h = (tt, h)
All-parts P (x ∷ xs) ys h = let (a, b) = All-parts P xs ys h.1 in ((h.0, a), b)

link_iff :
    (a b : Option ℕ) (bs : List ChainBroken) (x : ChainBroken)
    → ((if opt_eq a b then bs else bs ++ x ∷ []) ≡ []) ↔ ((bs ≡ []) × (a ≡ b))
link_iff a b bs x = elim (Bool-cases (opt_eq a b)) [
  | inl e ↦ rw e ((λ h. (h, (opt_eq_iff a b).0 e), λ h. h.0))
  | inr e ↦
      rw e ((λ h. cc (((append-eq-nil bs (x ∷ [])).0 h).1), λ h. cc (e, (opt_eq_iff a b).1 h.1)))
]

module _ (digest : Event → ℕ) where
  Clean-parts :
      (p : Option ℕ) (xs ys : List Line)
      → Clean digest p (xs ++ ys)
      → Clean digest p xs × Clean digest (final_prev p xs) ys
  unfolding final_prev
  Clean-parts p [] ys h = (tt, h)
  Clean-parts p (x ∷ xs) ys h = let (a, b) = Clean-parts (step_prev p x) xs ys h.1 in ((h.0, a), b)

  seal_iff : (at : Place) (e : Event) → (seal_breaks digest at e ≡ []) ↔ Sealed digest none e
  unfolding seal_breaks
  seal_iff at e = elim (Bool-cases (opt_eq e.hash (some (digest (record e { hash = none }))))) [
    | inl q ↦ rw q ((λ h. (opt_eq_iff _ _).0 q, λ h. refl))
    | inr q ↦ rw q ((λ h. cc, λ h. cc (q, (opt_eq_iff _ _).1 h)))
  ]

  all_redaction_breaks-append :
      (told : List (ℕ × List String)) (xs ys : List Redaction)
      → all_redaction_breaks told (xs ++ ys)
        ≡ all_redaction_breaks told xs ++ all_redaction_breaks told ys
  unfolding all_redaction_breaks
  all_redaction_breaks-append told [] ys = refl
  all_redaction_breaks-append told (x ∷ xs) ys =
      simp (all_redaction_breaks-append told xs ys, append_assoc)

  unaccounted_iff :
      (told : List (ℕ × List String)) (seq : ℕ) (fs : List String)
      → (keep_if (λ f. not (is_accounted told seq f)) fs ≡ [])
        ↔ All (λ f. is_accounted told seq f ≡ true) fs
  unaccounted_iff told seq [] = (λ h. tt, λ h. refl)
  unaccounted_iff told seq (f ∷ fs) = elim (Bool-cases (is_accounted told seq f)) [
    | inl e ↦
        rw e (
          (
            λ h. (refl, (unaccounted_iff told seq fs).0 h),
            λ h. (unaccounted_iff told seq fs).1 h.1,
          ))
    | inr e ↦ rw e ((λ h. cc, λ h. cc (h.0)))
  ]

  redaction_iff :
      (told : List (ℕ × List String)) (r : Redaction)
      → (redaction_breaks told r ≡ []) ↔ Accounted told r.seq r.fields
  unfolding redaction_breaks
  redaction_iff told r = elim (Bool-cases (is_explained told r.seq)) [
    | inl e ↦ rw e (
        (
          λ h. (refl, (unaccounted_iff told r.seq r.fields).0 ((no_breaks r.place _).0 h)),
          λ h. (no_breaks r.place _).1 ((unaccounted_iff told r.seq r.fields).1 h.1),
        ))
    | inr e ↦ rw e ((λ h. cc, λ h. cc (h.0)))
  ]

  walk_event-unmarked :
      (at : Place) (e : Event) (w : Walk)
      → e.redacted ≡ none
      → Walked digest w (walk_event digest at e w) (event e ∷ [])
  unfolding walk_event told_by final_prev
  walk_event-unmarked at e w q =
      let linked : List ChainBroken =
        if opt_eq e.prev w.prev then w.breaks else w.breaks ++ prev_mismatch at ∷ [] in
      let br : (walk_event digest at e w).breaks ≡ linked ++ seal_breaks digest at e =
        ground arith in
      record {
        prev = rw q refl;
        explained = rw (q, append-nil) refl;
        breaks = (
          λ h.
              let (l, s) = (append-eq-nil linked (seal_breaks digest at e)).0 (sym br ∙ h) in
              let (b, p) = (link_iff e.prev w.prev w.breaks (prev_mismatch at)).0 l in
              (b, ((p, subst (λ m. Sealed digest m e) (sym q) ((seal_iff at e).0 s)), tt)),
          λ h.
              br
              ∙ (append-eq-nil linked (seal_breaks digest at e)).1 (
                (link_iff e.prev w.prev w.breaks (prev_mismatch at)).1 (h.0, h.1.0.0),
                (seal_iff at e).1 (subst (λ m. Sealed digest m e) q h.1.0.1),
              ),
        );
        redactions = λ told. rw (q, walk_event) ((λ h. (h, (tt, tt)), λ h. h.0));
      }

  walk_event-marked :
      (at : Place) (e : Event) (w : Walk) (fs : List String)
      → e.redacted ≡ some fs
      → Walked digest w (walk_event digest at e w) (event e ∷ [])
  unfolding walk_event told_by final_prev all_redaction_breaks
  walk_event-marked at e w fs q = record {
    prev = rw q refl;
    explained = rw (q, append-nil) refl;
    breaks =
        rw (q, walk_event)
          ((
            λ h.
                let (b, p) = (link_iff e.prev w.prev w.breaks (prev_mismatch at)).0 h in
                (b, ((p, tt), tt)),
            λ h. (link_iff e.prev w.prev w.breaks (prev_mismatch at)).1 (h.0, h.1.0.0),
          ));
    redactions = λ told.
        rw (q, walk_event)
          (rw (all_redaction_breaks-append, append-nil)
            ((
              λ h.
                  let (a, b) =
                    (append-eq-nil _
                        (redaction_breaks told (record { place = at; seq = e.seq; fields = fs }))).0
                      h in
                  (a, ((redaction_iff told _).0 b, tt)),
              λ h. (append-eq-nil _ _).1 (h.0, (redaction_iff told _).1 h.1.0),
            )));
  }

  walk_line-Walked :
      (at : Place) (l : Line) (w : Walk) → Walked digest w (walk_line digest at l w) (l ∷ [])
  unfolding walk_line walk_event told_by final_prev
  walk_line-Walked at blank w = record {
    prev = refl;
    explained = rw append-nil;
    breaks = (λ h. (h, (tt, tt)), λ h. h.0);
    redactions = λ told. (λ h. (h, (tt, tt)), λ h. h.0);
  }
  walk_line-Walked at torn w = record {
    prev = refl;
    explained = rw append-nil;
    breaks = (λ h. cc (((append-eq-nil w.breaks (unreadable at ∷ [])).0 h).1), λ h. absurd (h.1.0));
    redactions = λ told. (λ h. (h, (tt, tt)), λ h. h.0);
  }
  walk_line-Walked at (event e) w = elim (Option-cases e.redacted) [
    | inl q ↦ walk_event-unmarked at e w q
    | inr p ↦ walk_event-marked at e w p.0 p.1
  ]

  Walked-trans :
      (u v w : Walk) (xs ys : List Line)
      → Walked digest u v xs
      → Walked digest v w ys
      → Walked digest u w (xs ++ ys)
  Walked-trans u v w xs ys a b = record {
    prev = b.prev ∙ ap (λ p. final_prev p ys) a.prev ∙ sym (final_prev-append u.prev xs ys);
    explained =
        b.explained
        ∙ ap (λ (t : List (ℕ × List String)). t ++ told_by ys) a.explained
        ∙ append_assoc u.explained (told_by xs) (told_by ys)
        ∙ ap (λ (t : List (ℕ × List String)). u.explained ++ t) (sym (told_by-append xs ys));
    breaks = (
      λ h.
          let (m, cy) = b.breaks.0 h in
          let (n, cx) = a.breaks.0 m in (n, Clean-append digest u.prev xs ys cx (rw a.prev at cy)),
      λ h.
          let (cx, cy) = Clean-parts u.prev xs ys h.1 in
          b.breaks.1 (a.breaks.1 (h.0, cx), rw (← a.prev) at cy),
    );
    redactions = λ told. (
      λ h.
          let (m, cy) = (b.redactions told).0 h in
          let (n, cx) = (a.redactions told).0 m in (n, All-append _ xs ys cx cy),
      λ h.
          let (cx, cy) = All-parts _ xs ys h.1 in
          (b.redactions told).1 ((a.redactions told).1 (h.0, cx), cy),
    );
  }

  Walked-refl : (w : Walk) → Walked digest w w []
  unfolding told_by final_prev
  Walked-refl w = record {
    prev = refl;
    explained = rw append-nil;
    breaks = (λ h. (h, tt), λ h. h.0);
    redactions = λ told. (λ h. (h, tt), λ h. h.0);
  }

  walk_lines-Walked :
      (date n : ℕ) (ls : List Line) (w : Walk) → Walked digest w (walk_lines digest date n ls w) ls
  unfolding walk_lines
  walk_lines-Walked date n [] w = Walked-refl w
  walk_lines-Walked date n (l ∷ ls) w =
      Walked-trans w _ _ (l ∷ []) ls (walk_line-Walked (date, n) l w)
        (walk_lines-Walked date (n + 1) ls (walk_line digest (date, n) l w))

  walk_partitions-Walked :
      (ps : List Partition) (w : Walk)
      → Walked digest w (walk_partitions digest ps w) (all_lines ps)
  unfolding walk_partitions all_lines
  walk_partitions-Walked [] w = Walked-refl w
  walk_partitions-Walked (p ∷ ps) w =
      Walked-trans w _ _ p.lines (all_lines ps) (walk_lines-Walked p.date 1 p.lines w)
        (walk_partitions-Walked ps (walk_lines digest p.date 1 p.lines w))

  -- On a chained trail `verify` reports no break exactly if every line is readable, the events form
  -- one chain from the
  -- checkpoint on, every event that was not emptied has the digest that it carries, and events of
  -- the trail say of every emptied event which fields were emptied.
  pub verify_iff :
      (trail : Trail)
      → ((verify digest chained trail).0 ≡ []) ↔ (
          Clean digest (checkpoint_hash trail.checkpoint) (all_lines trail.partitions)
          × AllAccounted (told_by (all_lines trail.partitions)) (all_lines trail.partitions))
  unfolding verify all_redaction_breaks
  verify_iff trail =
      let w0 : Walk = record {
        prev = checkpoint_hash trail.checkpoint;
        breaks = [];
        redactions = [];
        explained = [];
      } in
      let w = walk_partitions digest trail.partitions w0 in
      let walked : Walked digest w0 w (all_lines trail.partitions) =
        walk_partitions-Walked trail.partitions w0 in
      let e : w.explained ≡ told_by (all_lines trail.partitions) = walked.explained in
      (
        λ h.
            let (b, r) =
              (append-eq-nil w.breaks (all_redaction_breaks w.explained w.redactions)).0 h in
            (
              (walked.breaks.0 b).1,
              ((walked.redactions _).0
                  (ap (λ told. all_redaction_breaks told w.redactions) (sym e) ∙ r)).1,
            ),
        λ h. (append-eq-nil w.breaks (all_redaction_breaks w.explained w.redactions)).1 (
          walked.breaks.1 (refl, h.0),
          ap (λ told. all_redaction_breaks told w.redactions) e
              ∙ (walked.redactions _).1 (refl, h.1),
        ),
      )

  pub IsIntact-verify :
      (trail : Trail) → IsIntact digest trail → (verify digest chained trail).0 ≡ []
  IsIntact-verify trail i =
      (verify_iff trail).1 (i.clean, LaterAccounted-all [] (all_lines trail.partitions) i.later)
