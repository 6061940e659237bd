-- ===== src/MapReduce.antt =====
-- The MapReduce framework of Lab3/src/mr.
pub mod Job
pub mod Coordinator
pub mod Worker
pub mod Sequential
pub mod Shuffle
pub mod Applications
pub mod Indexer
pub mod CloudFiles
pub mod Cloud
pub mod Examples
