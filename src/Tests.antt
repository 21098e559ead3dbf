-- ===== src/Tests.antt =====
-- Runs of the code, and the theorems at concrete inputs.
mod Opcodes
mod Objects
mod Streams
mod Funcs
mod Tables
mod Codes
mod Debugs
mod Finds
mod Lexes
mod Strings
mod Chunks
mod Hashes
mod Assignments
