-- ===== src/Bench.antt =====
-- src/main.c: the programs that run as tasks to measure the kernel. An int is its 32 bits. The calls that
-- protect the frames are those of Stack and leave the values alone; they are left out.
mod Defs
pub mod Fib
pub mod Shuffle
pub mod Partition
pub mod Sort
mod Tests
unfoldable pub use Defs.{
  power_loop, fib_loop, fib, swap, partition, sort, block_erase, block_sync, page_size,
}
