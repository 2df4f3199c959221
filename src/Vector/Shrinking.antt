-- ===== src/Vector/Shrinking.antt =====
-- `_shrink` of libutils/VectorImpl.cpp: the vector loses a run of its items.
pub mod Branches
pub mod InPlace
