-- ===== src/Coding.antt =====
-- src/util/coding.h and src/util/coding.cpp: the byte-level encodings, one module a group.
pub mod Fixed
pub mod Varint
pub mod Prefixed
pub mod Records
pub mod BitStream
