-- ===== src/Stack.antt =====
-- The user stacks of a task: task_expand_stack and task_shrink_stack of kernel/src/task.c, and the two
-- system calls of kernel/src/callimpl.c with which a function closes its frame to its callees and opens it
-- again. A task's first stack is the one that it runs on; the others wait below it in the list.
mod Defs
mod Tests
pub mod Bounds
pub mod Expand
pub mod Shrink
pub mod Frames
mod Protect
unfoldable pub use Defs.{
  top_stack, update_top, copy_down, copy_bytes, frame_size, new_length, task_expand_stack,
  drop_between, first_between, task_shrink_stack,
}
unfoldable pub use Protect.{
  anchor_frame, extra_space, settle_frame, sys_set_protected_stack_top,
  sys_restore_protected_stack_top,
}
