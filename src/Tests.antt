-- ===== src/Tests.antt =====
-- Runs of the modelled code at concrete inputs.
pub mod Samples
mod Domain
mod Gate
mod Turn
mod Access
mod Routes
mod Tables
mod Slugs
mod Grounding
mod System
mod Evals
