-- ===== src/Residency.antt =====
-- app_v1/slaves/ai/app/gpu_residency.py: which models are on which GPU, and who may change that.
pub mod Models
pub mod Leases
pub mod Tables
pub mod Collecting
pub mod Invariant
pub mod Evicting
pub mod Entering
pub mod Soundness
pub mod Steps
pub mod Order
pub mod Progress
pub mod Deadlock
pub mod Residents
pub mod Cancelling
pub mod Examples
pub mod CancelExamples
