-- ===== src/Document/Equality.antt =====
-- Texts compared (dlpduck/types.py).
use mathlib.Core.Path.{subst}
use dlpduck.Prelude.{◌≡◌, refl, ◌↔◌, true, [], ◌∷◌, arith}
use dlpduck.Document.{Text, same_text}

pub same_text_refl : (s : Text) → same_text s s ≡ true
same_text_refl [] = refl
same_text_refl (c ∷ s) = ground (arith, same_text_refl s)

pub same_text-same : (s t : Text) → same_text s t ≡ true → s ≡ t
same_text-same [] [] h = refl
same_text-same [] (d ∷ t) h = cc
same_text-same (c ∷ s) [] h = cc
same_text-same (c ∷ s) (d ∷ t) h =
    let heads : c ≡ d = ground arith in let tails : s ≡ t = same_text-same s t (ground arith) in cc

pub same_text_iff : (s t : Text) → (same_text s t ≡ true) ↔ (s ≡ t)
same_text_iff s t =
    (same_text-same s t, λ e. subst (λ u. same_text s u ≡ true) e (same_text_refl s))
