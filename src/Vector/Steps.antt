-- ===== src/Vector/Steps.antt =====
-- What the parts of libutils/SharedBuffer.cpp and of the storage of libutils/VectorImpl.cpp do where they
-- return, as exact states.
mod Buffers
mod Release
mod Moving
mod Editing
mod Rebuilding
mod Resizing
pub use Buffers.*
pub use Release.*
pub use Moving.*
pub use Editing.*
pub use Rebuilding.*
pub use Resizing.*
