-- ===== src/Bytes.antt =====
-- kernel/src/memcpy.c and kernel/src/memset.c as the kernel runs them. In user mode both also close
-- their frame, by the system calls of Stack.
mod Defs
pub mod Ranges
mod Tests
unfoldable pub use Defs.{copy_up, fill}
