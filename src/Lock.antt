-- ===== src/Lock.antt =====
-- kernel/src/lock.c and kernel/lock.h: sleep locks and semaphores, each two words of memory, the value
-- and then a spinlock. The loops that sleep take the number of times that the task may be woken in
-- vain.
mod Defs
mod Tests
pub mod Words
pub mod Sleepers
pub mod Acquire
pub mod Runs
pub mod Exclusion
pub mod Wait
pub mod Semaphores
pub mod Conservation
unfoldable pub use Defs.{
  lock_loop, sleeplock_acquire, sleeplock_release, semaphore_loop, semaphore_wait, semaphore_post,
}
