-- ===== src/Integers.antt =====
-- runtime/ints.c: integer literals, and the arithmetic of 32-bit, 64-bit and native integers.
pub mod Literals
pub mod Overflow
pub mod Words
pub mod Laws
