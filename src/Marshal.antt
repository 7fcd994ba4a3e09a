-- ===== src/Marshal.antt =====
-- runtime/extern.c and runtime/intern.c: the codes of marshalled data.
pub mod Output
pub mod Input
pub mod Bytes
pub mod Numbers
pub mod Codes
pub mod Blocks
pub mod Texts
