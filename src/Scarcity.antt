-- ===== src/Scarcity.antt =====
-- Scarcity primitives (scarcity.py): measures, assessments and the assessment of a candidate.
pub mod Measure
pub mod Assessment
pub mod Contract
pub mod Bindings
pub mod Assess
pub mod Bounds
pub mod Pick
pub mod Windows
pub mod Scan
pub mod Closed
pub mod Representatives
pub mod Roles
pub mod Applicable
pub mod Totality
pub mod Locality
mod Samples
