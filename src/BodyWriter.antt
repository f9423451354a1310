-- ===== src/BodyWriter.antt =====
-- src/body_writer: the writers of a request's body.
pub mod Header
pub mod Chunked
pub mod Fixed
pub mod Body
pub mod Buffering
