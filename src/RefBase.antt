-- ===== src/RefBase.antt =====
-- Reference counts: libutils/RefBase.cpp.
pub mod State
pub mod Counts
pub mod Holders
pub mod Steps
pub mod Releases
pub mod Changes
pub mod Promotion
pub mod Extending
pub mod Histories
pub mod Pointers
pub mod Assignment
pub mod WeakMessages
mod Tests
