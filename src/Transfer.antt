-- ===== src/Transfer.antt =====
-- app_v1/sdk/slave: the attachments of a job call, cut into frames on one side of a data channel and put
-- together again on the other.
pub mod Frames
pub mod Sending
pub mod Receiving
pub mod Files
pub mod Round
pub mod Bounds
pub mod Safety
pub mod Examples
