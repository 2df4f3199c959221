-- ===== src/Looper.antt =====
-- libutils/Looper.cpp with libutils/include/utils/Looper.h, as compiled where there is kqueue.
pub mod State
pub mod Messages
pub mod Requests
pub mod Poll
pub mod Native
pub mod Queue
pub mod Removal
pub mod Dispatch
pub mod Registry
pub mod Adding
pub mod Removing
pub mod Repolling
pub mod Kqueue
pub mod Creation
pub mod Events
pub mod PollResults
mod Tests
