-- ===== src/Vector/Growing.antt =====
-- `_grow` of libutils/VectorImpl.cpp: the vector gets a gap of raw places in a buffer of its own.
pub mod Gap
pub mod Branches
pub mod InPlace
