-- ===== src/Prelude/Strings.antt =====
-- Strings put together, and looked for in a list.
use Prim.Native.String.{String, ◌++◌}
use mathlib.Core.Bool.{Bool, false, ◌||◌}
use mathlib.Core.List.{List, [], ◌∷◌}
use text.Mathlib.Text.{◌==◌ as str_eq}

abbrev pub concat : String → String → String
concat s t = s ++ t

-- Python's `in` on names
unfoldable pub is_one_of : String → List String → Bool
is_one_of x [] = false
is_one_of x (y ∷ ys) = str_eq x y || is_one_of x ys
