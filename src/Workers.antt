-- ===== src/Workers.antt =====
-- app_v1/launcher/app: the program beside the worker's process, which starts it, passes the jobs of the
-- server to it, and passes its reports back.
pub mod State
pub mod Reports
pub mod Control
pub mod Events
pub mod Keeps
pub mod Accounts
pub mod Repeats
pub mod Examples
