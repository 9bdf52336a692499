-- ===== src/Sink.antt =====
-- internal/sink
pub mod Multi
pub mod Kafka
pub mod Franz
