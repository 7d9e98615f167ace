-- ===== src/Programs.antt =====
-- app_v1/slaves/cae/app/program.py: which simulation programs a worker is willing to run.
pub mod Syntax
pub mod Checks
pub mod Validation
pub mod Safe
pub mod Meaning
pub mod Grammar
pub mod Walk
pub mod Entrypoint
pub mod Acceptance
pub mod Shadowing
pub mod Examples
