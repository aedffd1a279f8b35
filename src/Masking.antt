-- ===== src/Masking.antt =====
-- dlpduck/masking.py: what of a matched value is stored. The keyed digest (HMAC-SHA256, cut to 32
-- hex digits) is a parameter.
pub mod Disclosure
pub mod Reveal
use dlpduck.Prelude.{
  ℕ, ◌+◌, ◌-◌, ◌||◌, [], ◌++◌, map, leb, ◌==◌, if◌then◌else◌, length, drop, replicate, keep_if,
}
use dlpduck.Document.{Text}
use dlpduck.Unicode.{Unicode}

abbrev pub bullet : ℕ
bullet = 0x2022

-- `_normalize`: a dotless i (U+0131) is folded to i by hand.
unfoldable pub normalize : Unicode → Text → Text
normalize u raw = keep_if u.is_alnum (map (λ c. if c == 0x131 then b'i' else c) (u.fold raw))

-- [c for c in raw if c.isalnum()]
abbrev pub alnums : Unicode → Text → Text
alnums u raw = keep_if u.is_alnum raw

unfoldable pub mask : Unicode → Text → ℕ → Text
mask u raw keep =
    let chars = alnums u raw in
    if length chars == 0
    then []
    else if keep == 0 || leb (length chars) (keep + 3)
    then replicate (length chars) bullet
    else replicate (length chars - keep) bullet ++ drop (length chars - keep) chars

unfoldable pub correlate : {Key : Type 0} → Unicode → (Key → Text → Text) → Text → Key → Text
unfolding normalize
correlate u hmac raw key = hmac key (normalize u raw)
