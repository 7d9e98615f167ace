-- ===== src/Jobs.antt =====
-- app_v1/server/app/service/job_service.py over the tables of app_v1/server/app/db.py.
pub mod Rows
pub mod Reports
pub mod Claim
pub mod Ending
pub mod History
pub mod Lifecycle
pub mod Sound
pub mod Effects
pub mod Order
pub mod Choice
pub mod Claims
pub mod Invariant
pub mod LauncherRows
pub mod Examples
