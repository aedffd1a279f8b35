-- ===== src/Tests.antt =====
-- The theorems on concrete inputs.
mod Scanning
mod Texts
mod Trails
mod Commits
mod Reassessments
mod Stores
mod Intake
mod Companions
mod Arrivals
mod Rulesets
mod Accounts
mod Compactions
