-- ===== src/Session.antt =====
-- app_v1/sdk/master/python/gpstation_master/job_peer.py and app_v1/sdk/slave/worker.py: the session between a client
-- and the worker that has its job.
pub mod Messages
pub mod Client
pub mod Worker
pub mod Steps
pub mod Peers
pub mod Spec
pub mod Clients
pub mod Handling
pub mod Workers
pub mod Invariant
pub mod Answers
pub mod Refinement
pub mod Lost
pub mod Examples
