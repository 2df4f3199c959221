-- ===== src/Eventfd.antt =====
-- macport/eventfd.c: Linux eventfd over a socket pair and a table of contexts.
-- `Sockets` has the descriptors as the code uses them, `Table` the table of contexts, `Calls` the
-- four entry points; the other children prove what these guarantee.
pub mod Sockets
pub mod Table
pub mod Calls
pub mod Drain
pub mod Counter
pub mod Lookup
pub mod Totals
pub mod Signal
pub mod Stale
pub mod Direct
pub mod Contexts
pub mod Pair
pub mod Lifecycle
mod Tests
