-- ===== src/Api.antt =====
-- internal/api: the request handlers, over HTTP and gRPC.
pub mod Request
pub mod Http
pub mod Grpc
pub mod Answers
pub mod Serving
