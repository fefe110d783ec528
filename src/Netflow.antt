-- ===== src/Netflow.antt =====
-- NetFlow v5, v9 and IPFIX (backend/src/services/netflow): the decoder and the collector.
pub mod Action
pub mod Buffer
pub mod Flow
pub mod V5
pub mod Records
pub mod Templates
pub mod Walk
pub mod Decode
pub mod Apps
pub mod Collector
mod Tests
