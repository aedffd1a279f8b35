-- ===== src/Throttle/Windows.antt =====
-- The table of windows as a map (dlpduck/console/auth.py).
use dlpduck.Prelude.{
  ℕ, String, ◌≡◌, refl, false, ◌||◌, List, [], ◌∷◌, arith, str_eq, eq_iff, if◌then◌else◌, any_of,
}
use dlpduck.Throttle.{Failures, window, put_window, pop_window}

pub window-put_window :
    (j k : String) (ts : List ℕ) (m : Failures)
    → window j (put_window k ts m) ≡ (if str_eq k j then ts else window j m)
unfolding window put_window
window-put_window j k ts [] = refl
window-put_window j k ts ((i, us) ∷ m) =
    ground (arith, eq_iff k j, eq_iff i k, eq_iff i j, window-put_window j k ts m)

-- Every key stands once in the table.
abbrev pub IsOnce : Failures → Type 0
IsOnce [] = Unit
IsOnce ((k, ts) ∷ m) = (any_of (λ (e : String × List ℕ). str_eq e.0 k) m ≡ false) × IsOnce m

pub window-missing :
    (k : String) (m : Failures)
    → any_of (λ (e : String × List ℕ). str_eq e.0 k) m ≡ false
    → window k m ≡ []
unfolding window
window-missing k [] h = refl
window-missing k ((j, ts) ∷ m) h = ground (arith, window-missing k m)

any_of-put_window :
    (i k : String) (ts : List ℕ) (m : Failures)
    → any_of (λ (e : String × List ℕ). str_eq e.0 i) (put_window k ts m)
      ≡ (str_eq k i || any_of (λ (e : String × List ℕ). str_eq e.0 i) m)
unfolding put_window
any_of-put_window i k ts [] = refl
any_of-put_window i k ts ((j, us) ∷ m) =
    ground (arith, eq_iff j k, eq_iff j i, eq_iff k i, any_of-put_window i k ts m)

pub put_window-IsOnce :
    (k : String) (ts : List ℕ) (m : Failures) → IsOnce m → IsOnce (put_window k ts m)
unfolding put_window
put_window-IsOnce k ts [] h = (refl, tt)
put_window-IsOnce k ts ((j, us) ∷ m) h =
    ground (arith, eq_iff j k, eq_iff k j, any_of-put_window j k ts m, put_window-IsOnce k ts m h.1)

any_of-pop_window :
    (i k : String) (m : Failures)
    → any_of (λ (e : String × List ℕ). str_eq e.0 i) m ≡ false
    → any_of (λ (e : String × List ℕ). str_eq e.0 i) (pop_window k m) ≡ false
unfolding pop_window
any_of-pop_window i k [] h = refl
any_of-pop_window i k ((j, us) ∷ m) h = ground (arith, any_of-pop_window i k m)

pub pop_window-IsOnce : (k : String) (m : Failures) → IsOnce m → IsOnce (pop_window k m)
unfolding pop_window
pop_window-IsOnce k [] h = tt
pop_window-IsOnce k ((j, us) ∷ m) h =
    ground (arith, any_of-pop_window j k m h.0, pop_window-IsOnce k m h.1)

pub window-pop_window :
    (j k : String) (m : Failures)
    → IsOnce m
    → window j (pop_window k m) ≡ (if str_eq k j then [] else window j m)
unfolding window pop_window
window-pop_window j k [] h = ground arith
window-pop_window j k ((i, us) ∷ m) h =
    ground (
      arith,
      eq_iff i k,
      eq_iff k j,
      eq_iff i j,
      window-missing i m h.0,
      window-pop_window j k m h.1,
    )
