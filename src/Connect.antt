-- ===== src/Connect.antt =====
-- The connect layer: client connections, the groups of a bucket, and the buckets of a server.
pub mod Channel
pub mod GroupNode
pub mod Bucket
pub mod Server
pub mod Rpc
pub mod Letters
pub mod Pump
pub mod ReadPump
