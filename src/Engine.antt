-- ===== src/Engine.antt =====
-- internal/engine
pub mod Types
pub mod Combine
pub mod Rules
pub mod Evaluate
