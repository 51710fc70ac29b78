-- ===== src/Memory.antt =====
-- Byte-addressed memory, and the word accesses that the kernel makes through pointers to
-- struct MemoryBlock and uint32_t. The board is little-endian.
mod Defs
mod Laws
unfoldable pub use Defs.{Mem, store8, load32, store32}
pub use Laws.{load32-store32, load32-store32_apart, store32-apart}
