-- ===== src/Rules.antt =====
-- internal/rules
pub mod Action
pub mod Combiner
pub mod Raw
pub mod Order
pub mod RateLimit
pub mod Aho
pub mod Keyword
pub mod Cel
pub mod Loader
