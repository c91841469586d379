-- ===== src/Services.antt =====
-- The services that the program calls, each as an interface: its state, its operations, and what
-- the program relies on. Any call may raise.
pub mod Connections
pub mod Indexes
pub mod Cloud
pub mod Collection
pub mod Redis
pub mod Kafka
pub mod RestProxy
pub mod Buckets
pub mod Postgres
pub mod Offsets
pub mod Queue
pub mod ObjectStore
