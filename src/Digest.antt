-- ===== src/Digest.antt =====
-- The message digests of the runtime.
pub mod Md5
pub mod Blake2
