-- ===== src/Task.antt =====
-- kernel/src/task.c and kernel/task.h: the task table, its states, sleeping and waking, the scheduler. A
-- pointer to a task is its place in the table.
mod Flags
mod Table
mod Defs
mod Tests
pub mod State
pub mod Ids
pub mod Unique
pub mod Create
pub mod Created
pub mod Schedule
pub mod Placed
pub mod Woken
pub mod Invariant
pub mod Switches
pub mod Additions
pub mod OneRunning
pub mod Rounds
pub mod Turns
pub mod Passes
pub mod Count
pub mod Sleep
unfoldable pub use Flags.{
  flag, is_runnable, is_running, is_sleeping, is_zombie, is_just_allocated, set_state,
  set_just_allocated, runnable, running, sleeping, zombie,
}
unfoldable pub use Table.{used_tids, first_free, get_tid, find_task, get_task_by_id, max_task_count}
unfoldable pub use Defs.{
  spinlock_acquire, spinlock_release, sched, sleep, wakes, wake, wake_all, wakeup, int_le_one,
  task_yield,
}
