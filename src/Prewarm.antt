-- ===== src/Prewarm.antt =====
-- app_v1/sdk/master/python/gpstation_master/client.py: connections that a client prepares before it has a job for them.
pub mod Pool
pub mod Steps
pub mod Sound
pub mod Later
pub mod OwnKey
pub mod Sharing
pub mod Kept
pub mod Accounts
pub mod Leaving
pub mod Forgotten
pub mod Examples
