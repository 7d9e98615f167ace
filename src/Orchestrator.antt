-- ===== src/Orchestrator.antt =====
-- app_v1/server/app/service/job_orchestrator.py: the handlers that join the database and the registry.
pub mod Server
pub mod Handlers
pub mod Dispatch
pub mod Connections
pub mod Ownership
pub mod Claiming
pub mod Settling
pub mod Upkeep
pub mod Sweeps
pub mod Links
pub mod Actions
pub mod Passes
pub mod Reports
pub mod Waiting
pub mod Telling
pub mod Notices
pub mod Announcements
pub mod MassEndings
pub mod Awake
pub mod Requests
pub mod Examples
