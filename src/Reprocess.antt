-- ===== src/Reprocess.antt =====
-- dlpduck/reprocess.py: an assessment that is made anew under the current rules.
pub mod Rows
pub mod Evaluate
pub mod Write
pub mod Transition
