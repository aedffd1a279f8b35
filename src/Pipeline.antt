-- ===== src/Pipeline.antt =====
-- dlpduck/pipeline.py: the stores that a job is committed to, processing and committing.
pub mod State
pub mod Process
pub mod Commit
pub mod Intake
pub mod Claim
pub mod Finish
