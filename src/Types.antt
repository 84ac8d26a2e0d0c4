-- ===== src/Types.antt =====
-- The data of a selection: identities, requirements and catalog entries (selection_types.py).
pub mod SafeId
pub mod Text
pub mod Calendar
pub mod Identity
pub mod Requirement
pub mod Catalog
pub mod Contract
pub mod Facts
pub mod LineFeed
mod Samples
