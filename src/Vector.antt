-- ===== src/Vector.antt =====
-- The vectors of libutils: SharedBuffer.cpp, VectorImpl.cpp and TypeHelpers.h.
pub mod Memory
pub mod Heap
pub mod Storage
pub mod Operations
pub mod Validity
pub mod Steps
pub mod Sizes
pub mod Growing
pub mod Contents
pub mod Insertion
pub mod Shrinking
pub mod Removal
pub mod Sharing
pub mod Sorted
pub mod Replacing
pub mod Sorting
pub mod RoundTrip
mod Tests
