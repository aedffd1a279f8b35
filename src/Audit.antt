-- ===== src/Audit.antt =====
-- dlpduck/audit.py: the hash-chained trail of events, one file of lines for each day.
-- A digest is the number that its hexadecimal digits write; SHA-256 over the canonical JSON of an
-- event is the parameter `digest`, which is given the event without its hash. Dates are day
-- numbers. A line that is not JSON is `torn`; every other line is an event that carries a `seq`.
-- A set of field names is a list, of which only membership matters.
pub mod Trail
pub mod Append
pub mod Verify
pub mod Sound
pub mod Redact
pub mod Trim
