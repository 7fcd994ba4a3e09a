-- ===== src/Tests.antt =====
-- The theorems at concrete inputs, and runs of the definitions.
mod Digests
mod Lexers
mod Parsers
mod Strings
mod Channels
mod Integers
mod Interpreter
mod Bigarrays
mod Comparisons
mod Marshalling
mod Closures
