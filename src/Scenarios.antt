-- ===== src/Scenarios.antt =====
-- The theorems at concrete sessions, and runs of the definitions.
mod Engine
mod Hexadecimal
mod Lifecycle
mod Chain
mod Session
mod Store
mod Proof
mod Receipts
mod Signed
mod Snapshot
mod Handover
mod Handed
mod Completion
mod Completed
mod Working
mod Worked
mod Vouched
mod Gaap
mod Prepared
