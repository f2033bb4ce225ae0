-- ===== src/Common.antt =====
-- common/: what the services share: the operation codes, the keys of the cache, and the access to
-- the redis servers.
pub mod Param
pub mod Keys
pub mod Redis
pub mod Kafka
pub mod Lock
