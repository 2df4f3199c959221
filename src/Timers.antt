-- ===== src/Timers.antt =====
-- libutils/Timers.cpp: the clocks and the conversion of a deadline into a poll timeout.
-- `nsecs_t` is an integer; a difference is read as `uint64_t`, as the source does.
pub mod Delay
mod Tests
