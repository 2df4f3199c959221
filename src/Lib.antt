-- ===== src/Lib.antt =====
-- A model of the port of Android's native utilities to macOS, with theorems on what it does.
--
-- The program is a static library. Its parts, and the modules that model them:
-- - libutils/Timers.cpp: clocks and timeouts. Timers/Delay.
-- - macport/eventfd.c: an emulation of eventfd by a socket pair and a counter. Eventfd: its sockets
--   (Sockets), its table of contexts (Table) and its calls (Calls).
-- - libutils/Looper.cpp, in the build for kqueue: a loop that waits for descriptors and delivers
--   messages. Looper: its state (State), its constructor (Creation), its message queue (Messages),
--   its descriptors (Requests) and its polls (Poll), which native/android/looper.cpp offers in C
--   (Native). A looper uses the timers for its timeouts, and an eventfd as the descriptor that wakes
--   it.
-- - libutils/RefBase.cpp, without DEBUG_REFS: the strong and weak counts of an object. RefBase: the
--   state of one object (State) and its operations (Counts), with what it means for so many pointers
--   to hold it (Holders), and the pointers sp and wp of StrongPointer.h and RefBase.h, on several
--   objects (Pointers), with the handler of Looper.cpp that holds its target weakly (WeakMessages).
--   Loopers, handlers and callbacks are such objects; the model of the looper takes their addresses.
-- - libutils/VectorImpl.cpp, libutils/SharedBuffer.cpp and libutils/include/utils/TypeHelpers.h: vectors
--   that share buffers until one is changed. Vector: objects in memory (Memory), buffers with a count
--   of owners (Heap), the storage of a vector (Storage), its operations (Operations), its sort (Sorting)
--   and those of a sorted vector (Sorted), with what it means for the counts and all vectors to be right
--   (Validity) and for a vector to be a list (Contents).
-- - libutils/include/utils/LightRefBase.h: a count without weak pointers. LightRefBase.
-- The other modules of a directory are theorems on these, by the name of what they show; Base holds
-- what the models share. Functions keep the source's names in snake case.
--
-- Numbers are natural numbers or integers without a bound, with the wrap-around of unsigned types
-- written out; the theorem on timeouts has the bounds of int64_t as hypotheses. A looper's operation is
-- a function from a looper to a run, which ends with a value and a looper, by the abort of a fatal log,
-- or short of fuel. Answers of the kernel, the clock, handlers and callbacks are the fields of System, a
-- parameter; handlers and callbacks may change the looper in any way. Lock-protected sections are
-- atomic, and what other threads do during a wait is the field meanwhile. A blocked eventfd_read that is
-- woken reads its byte and takes the lock again in one step. An operation on an object of
-- RefBase may also end with a use of freed memory; its 32-bit counts are numbers below 2^32, and the
-- virtual functions of the object are the fields of Hooks.
--
-- A buffer of a vector is a function from places to the objects that live there; a use of a place
-- without an object, outside of the buffer or in a freed buffer is a fault. Addresses are not used
-- again. The heap has buffers of one type of objects, whose traits are a parameter, as are the answers of
-- malloc and realloc; size_t has 64 bits, and the theorems have as hypotheses that the allocator has
-- memory and that a size in bytes is one that alloc takes. ALOG_ASSERT aborts.
--
-- Fuel: drain_socket has a round for each byte and one more, which is enough. The two loops of a poll
-- that run handlers and callbacks get fuel, since they end only if these do; the theorem on the message
-- loop needs as much as the queue is long. pollOnce gets two rounds, which are enough. pollAll gets
-- fuel, since it polls while there is work. The binary search gets as many rounds as the vector has items
-- and one more, which are enough.
--
-- Not modelled: the build for epoll; the memory order of atomics and the interleaving of operations
-- on one object; the templates of Vector.h, which pass calls on; the other C functions of native/android,
-- which pass calls on; headers whose code is not in the repository (String8, Unicode) or that wrap
-- the system's (Mutex, unique_fd).
pub mod Base
pub mod Timers
pub mod Eventfd
pub mod Looper
pub mod RefBase
pub mod LightRefBase
pub mod Vector
