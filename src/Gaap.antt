-- ===== src/Gaap.antt =====
-- src/domain/gaap-json.ts: the evidence that the GAAP verifier takes from outside.
pub mod Json
