-- ===== src/Kernel.antt =====
-- The state of the kernel and the commands that run over it. The kernel's linked lists (tasks, free
-- blocks, buffer entries, stacks, messages) own their nodes and are modelled as lists; a pointer to
-- a task is its place in the task list, from which no task is ever removed.
mod Monad
mod State
mod Access
pub use Monad.{
  Run, Cmd, done, panicked, fault, hung, starved, switched, and_then, ◌>>=◌, ◌>>◌, pure, done-value,
  done-state, switched-state, and_then-done, and_then_assoc,
}
pub use State.{FreeListNode, BufferEntry, Context, TrapFrame, Stack, Task, Layout, Kernel}
pub use Access.{
  get, modify, malloc_next, malloc, lift_pmp, write_word, read_word, task_at, current_task,
  update_task, update_current, panic,
}
