-- ===== src/Audit/Trail.antt =====
-- The data of the trail, and what is read from its end (dlpduck/audit.py: the partitions, the
-- checkpoint, `_resume`).
use dlpduck.Prelude.{
  ℕ, String, Bool, true, false, Option, none, some, List, [], ◌∷◌, ◌++◌, str_eq, ◌==◌,
  if◌then◌else◌, any_of,
}

pub data Value : Type 0 where
  str : String → Value
  num : ℕ → Value
  strs : List String → Value

pub record Event : Type 0 where
  pub seq : ℕ
  pub ts : String
  pub kind : String  -- the key "event"
  pub fields : List (String × Value)
  pub prev : Option ℕ
  pub hash : Option ℕ
  pub redacted : Option (List String)  -- the marker's "fields"

pub data Line : Type 0 where
  blank torn : Line
  event : Event → Line

-- `dt=<date>/events.jsonl`. Where its last line has no line break, `unterminated` is true.
pub record Partition : Type 0 where
  pub date : ℕ
  pub lines : List Line
  pub unterminated : Bool

pub record Checkpoint : Type 0 where
  pub seq : ℕ
  pub hash : Option ℕ

-- The partitions, in the order of their names, and the checkpoint if it can be read.
pub record Trail : Type 0 where
  pub partitions : List Partition
  pub checkpoint : Option Checkpoint

pub data Integrity : Type 0 where
  chained unchained : Integrity

abbrev pub opt_eq : Option ℕ → Option ℕ → Bool
opt_eq none none = true
opt_eq none (some b) = false
opt_eq (some a) none = false
opt_eq (some a) (some b) = a == b

abbrev pub mem_str : String → List String → Bool
mem_str a xs = any_of (λ b. str_eq a b) xs

-- event.get(key)
unfoldable pub lookup : String → List (String × Value) → Option Value
lookup k [] = none
lookup k ((j, v) ∷ rest) = let more = lookup k rest in if str_eq j k then some v else more

abbrev pub or_else {ℓ} : {A : Type ℓ} → Option A → Option A → Option A
or_else (some a) b = some a
or_else none b = b

-- The newest record of a file that can be read, `_last_parseable_event`.
unfoldable pub last_event : List Line → Option Event
last_event [] = none
last_event (blank ∷ rest) = last_event rest
last_event (torn ∷ rest) = last_event rest
last_event (event e ∷ rest) = or_else (last_event rest) (some e)

-- The loop over the partitions, newest first.
unfoldable pub newest_event : List Partition → Option Event
unfolding last_event
newest_event [] = none
newest_event (p ∷ ps) = or_else (newest_event ps) (last_event p.lines)

abbrev pub after_checkpoint : Option Checkpoint → ℕ × Option ℕ
after_checkpoint none = (0, none)
after_checkpoint (some c) = (c.seq, c.hash)

-- `_resume`: the sequence number and the hash that the next event follows.
unfoldable pub resume : Trail → ℕ × Option ℕ
unfolding newest_event
resume trail = elim (newest_event trail.partitions) [
  | some e ↦ (e.seq, e.hash)
  | none ↦ after_checkpoint trail.checkpoint
]

-- All lines of the trail, oldest first.
unfoldable pub all_lines : List Partition → List Line
all_lines [] = []
all_lines (p ∷ ps) = p.lines ++ all_lines ps
