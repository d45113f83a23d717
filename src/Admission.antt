-- ===== src/Admission.antt =====
-- The admission of a recovered program: the evidence of packages/core/src/analysis, the validators
-- of its proofs, and the gate that decides.
pub mod Gate
pub mod Verdict
pub mod Evidence
pub mod Integrity
pub mod Provenance
pub mod Required
pub mod Contract
pub mod Single
pub mod Graph
pub mod Complete
pub mod Examples
