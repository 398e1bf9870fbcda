-- ===== src/Forms.antt =====
-- apps/forms: the formulas of calculated questions.
pub mod Formula
pub mod Conditions
pub mod Layout
mod Tests
