-- ===== src/Reprocess/Transition/Recovered.antt =====
-- A transition that is cut anywhere, and recoveries that are cut anywhere (dlpduck/reprocess.py).
use mathlib.Core.Path.{subst}
use dlpduck.Prelude.{
  ℕ, ◌≡◌, refl, sym, ap, ◌∙◌, ◌⊎◌, inl, inr, true, false, none, some, List, [], ◌∷◌,
}
use dlpduck.Run.{Progress, crashed, raised, going}
use dlpduck.Run.Does.{Ended, Does, Does-durable, Does-bind, Ended-weaken}
use dlpduck.Reprocess.Write.{Transition, Archive}
use dlpduck.Reprocess.Transition.{apply_transition, commit_transition, recover_transition}
use dlpduck.Reprocess.Transition.Pending.{IsNew, carried_out, Recoverable, Begun}
use dlpduck.Reprocess.Transition.Atomic.{apply_transition-Does}

abbrev pub left_behind : Progress Archive Unit → Archive
left_behind (crashed a) = a
left_behind (raised e a) = a
left_behind (going u n a) = a

-- A recovery for each number, which is how many writes it lives for.
unfoldable pub recoveries : List ℕ → Archive → Archive
recoveries [] a = a
recoveries (n ∷ ns) a = recoveries ns (left_behind (recover_transition n a))

module _ (t : Transition) (old : Archive) (new : IsNew t old) where
  abbrev Settled : Archive → Type 0
  Settled a = (a ≡ old) ⊎ (a ≡ carried_out t old)

  -- Nothing was done, all was done, or what is done is noted for a recovery.
  abbrev Sound : Archive → Type 0
  Sound a = Recoverable t old a ⊎ (a ≡ carried_out t old)

  noted_now : (a : Archive) → a ≡ old → Begun t old false (record a { transition = some t })
  noted_now a e = rw e (
    record { noted = refl; disk = inl refl; content = inl refl; rows = inl refl; trail = inl refl },
    inr refl,
  )

  begun :
      Does (Recoverable t old) (λ a. a ≡ old) (commit_transition t) (λ u a. a ≡ carried_out t old)
  unfolding commit_transition
  begun =
      Does-bind {Mid = λ u a. Begun t old false a} _ _ (Does-durable _ (λ a h. inl h) noted_now)
        (λ u. apply_transition-Does t old false new)

  recover_idle : (n : ℕ) (a : Archive) → a.transition ≡ none → recover_transition n a ≡ going tt n a
  unfolding recover_transition
  recover_idle n a e = rw e refl

  recover_noted :
      (n : ℕ) (a : Archive)
      → a.transition ≡ some t
      → recover_transition n a ≡ apply_transition true t n a
  unfolding recover_transition
  recover_noted n a e = rw e refl

  recovered :
      (n : ℕ) (a : Archive) → Sound a → Ended Sound (λ u b. Settled b) (recover_transition n a)
  recovered n a (inl (inl e)) =
      subst (Ended Sound (λ u b. Settled b))
        (sym (recover_idle n a (ap (λ (x : Archive). x.transition) e ∙ new.idle))) (inl e)
  recovered n a (inl (inr p)) =
      subst (Ended Sound (λ u b. Settled b)) (sym (recover_noted n a p.noted)) (
        Ended-weaken (λ b h. inl h) (λ u b h. inr h) (apply_transition true t n a)
          ((apply_transition-Does t old true new).at n a (p, inl refl)))
  recovered n a (inr e) =
      subst (Ended Sound (λ u b. Settled b))
        (sym (recover_idle n a (ap (λ (x : Archive). x.transition) e))) (inr e)

  left_behind-Sound :
      (p : Progress Archive Unit) → Ended Sound (λ u b. Settled b) p → Sound (left_behind p)
  left_behind-Sound (crashed a) h = h
  left_behind-Sound (raised e a) h = h
  left_behind-Sound (going u n a) (inl h) = inl (inl h)
  left_behind-Sound (going u n a) (inr h) = inr h

  recoveries-Sound : (ns : List ℕ) (a : Archive) → Sound a → Sound (recoveries ns a)
  unfolding recoveries
  recoveries-Sound [] a h = h
  recoveries-Sound (n ∷ ns) a h =
      recoveries-Sound ns (left_behind (recover_transition n a))
        (left_behind-Sound (recover_transition n a) (recovered n a h))

-- A transition whose row is newer than all rows of the job, whose event is not on the trail, and
-- that finds no other transition noted, is atomic: however the process that carries it out is cut,
-- and however the recoveries after it are cut, a recovery that returns leaves the archive as it was
-- before the transition, or with the PDF moved, the content replaced, one row and one event more,
-- and no transition noted. One that is cut leaves one of these, or the transition noted and each
-- of its parts done or not done, the PDF perhaps copied to its new place and still at the old one.
pub transition_atomic :
    (t : Transition) (old : Archive) (n : ℕ) (ns : List ℕ) (m : ℕ)
    → IsNew t old
    → Ended
        (λ a. Recoverable t old a ⊎ (a ≡ carried_out t old))
        (λ u a. (a ≡ old) ⊎ (a ≡ carried_out t old))
        (recover_transition m (recoveries ns (left_behind (commit_transition t n old))))
transition_atomic t old n ns m new = recovered t old new m _ (
    recoveries-Sound t old new ns _ (
      left_behind-Sound t old new (commit_transition t n old) (
        Ended-weaken (λ b h. inl h) (λ u b h. inr h) (commit_transition t n old)
          ((begun t old new).at n old refl))))
