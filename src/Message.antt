-- ===== src/Message.antt =====
-- The message queues of kernel/src/task.c: post_message and get_message. A queue is the list of the
-- messages that wait; its lock and its semaphore, which counts them, are words of the task's struct.
pub mod Words
pub mod Rest
pub mod Queue
pub mod Fifo
mod Tests
use sofie_os.Base.{ℕ, ◌+◌, Option, none, some, List, [], ◌∷◌, ◌++◌, ◌==◌, if◌then◌else◌}
use sofie_os.Metal.{Metal}
use sofie_os.Kernel.{
  Task, Kernel, Cmd, panic, fault, ◌>>=◌, ◌>>◌, get, malloc, pure, task_at, update_task,
}
use sofie_os.Task.{get_task_by_id}
use sofie_os.Task.Create.{queue_lock_offset, queue_sema_offset}
use sofie_os.Lock.{sleeplock_acquire, sleeplock_release, semaphore_wait, semaphore_post}
use sofie_os.Umalloc.{change_owner}

-- kernel/src/linkedlist.c
unfoldable pub add_list_node : List ℕ → ℕ → List ℕ
add_list_node list message = list ++ message ∷ []

module _ {Dev : Type 0} where
  -- The task with the id, by its place: NULL is a fault, since both functions go on to use it.
  abbrev pub task_by_id : ℕ → Cmd (Kernel Dev) ℕ
  task_by_id tid k = elim (get_task_by_id tid k.tasks) [ none ↦ fault | some i ↦ pure i k ]

  -- The head's data, and the queue without it.
  unfoldable pub take_message : ℕ → List ℕ → Cmd (Kernel Dev) ℕ
  take_message i [] = λ _. fault
  take_message i (message ∷ rest) = do
    update_task i (λ t. record t { message_queue = rest })
    pure message

  unfoldable pub get_message : ℕ → ℕ → Cmd (Kernel Dev) ℕ
  get_message rounds tid = do
    i ← task_by_id tid
    task ← task_at i
    semaphore_wait rounds (task.address + queue_sema_offset)
    sleeplock_acquire rounds (task.address + queue_lock_offset)
    now ← task_at i
    result ← take_message i now.message_queue
    sleeplock_release (task.address + queue_lock_offset)
    pure result

module _ {Dev : Type 0} ⦃metal : Metal Dev⦄ where
  unfoldable pub post_message : ℕ → ℕ → ℕ → Cmd (Kernel Dev) (Unit {0})
  post_message rounds tid msg = do
    i ← task_by_id tid
    task ← task_at i
    sleeplock_acquire rounds (task.address + queue_lock_offset)
    node ← malloc
    if node == 0 then panic else do
      change_owner msg tid
      update_task i (λ t. record t { message_queue = add_list_node t.message_queue msg })
      semaphore_post (task.address + queue_sema_offset)
      sleeplock_release (task.address + queue_lock_offset)
