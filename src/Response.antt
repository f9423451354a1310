-- ===== src/Response.antt =====
-- response/: the parsed response and the readers of its body.
pub mod Status
pub mod FixedLength
pub mod Chunked
pub mod Body
pub mod Parsed
pub mod Fields
pub mod Read
pub mod Iterator
pub mod Collect
