-- ===== src/Registry.antt =====
-- app_v1/server/app/state.py: the runtime registry of the connected launchers and of the requests
-- that wait for a job.
pub mod Events
pub mod Waiters
pub mod Wakeups
pub mod Launchers
pub mod Examples
