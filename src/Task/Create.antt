-- ===== src/Task/Create.antt =====
-- create_task and init_tasks of kernel/src/task.c, and the scheduler's loop body.
use sofie_os.Base.{
  ℕ, ◌+◌, Option, none, some, List, [], ◌∷◌, ◌++◌, ◌==◌, if◌then◌else◌, get_elem?, set,
}
use sofie_os.Word.{add32}
use sofie_os.Metal.{Metal}
use sofie_os.Pmp.{restore_pmp_settings}
use sofie_os.Kernel.{
  Task, TrapFrame, Kernel, Cmd, panic, fault, ◌>>=◌, ◌>>◌, get, modify, malloc, pure, write_word,
}
use sofie_os.Task.Flags.{set_state, set_just_allocated, is_runnable, runnable, running}
use sofie_os.Task.Table.{get_tid}

abbrev pub user_stack_size : ℕ
user_stack_size = 1024

abbrev pub kernel_stack_size : ℕ
kernel_stack_size = 768

-- Offsets of queue_lock and queue_sema in struct Task.
abbrev pub queue_lock_offset : ℕ
queue_lock_offset = 68

abbrev pub queue_sema_offset : ℕ
queue_sema_offset = 76

module _ {Dev : Type 0} where
  -- kernel/src/lock.c
  abbrev spinlock_init : ℕ → Cmd (Kernel Dev) (Unit {0})
  spinlock_init lock = write_word lock 0

  -- The spinlock is the second word of a sleep lock or semaphore.
  unfoldable pub sleeplock_init : ℕ → Cmd (Kernel Dev) (Unit {0})
  sleeplock_init lock = do spinlock_init (lock + 4); write_word lock 0

  unfoldable pub semaphore_init : ℕ → ℕ → Cmd (Kernel Dev) (Unit {0})
  semaphore_init semaphore value = do spinlock_init (semaphore + 4); write_word semaphore value

-- kernel/src/linkedlist.c
abbrev init_linked_list {ℓ} : {A : Type ℓ} → List A
init_linked_list = []

-- The registers that create_task sets, over a frame that memset has cleared.
abbrev pub new_frame : ℕ → ℕ → ℕ → ℕ → TrapFrame
new_frame kernel_stack stack_data gp entry = record {
  epc = entry;
  kernel_sp = add32 kernel_stack kernel_stack_size;
  sp = add32 stack_data user_stack_size;
  gp = gp;
  fp = 0;
  a0 = 0;
  a1 = 0;
  a2 = 0;
  a3 = 0;
  a4 = 0;
  a5 = 0;
  a7 = 0;
}

unfoldable pub new_task : ℕ → ℕ → ℕ → ℕ → ℕ → ℕ → ℕ → Task
new_task address tid kernel_stack stack_data gp usertrapret entry = record {
  address = address;
  context = record { ra = usertrapret; sp = add32 kernel_stack kernel_stack_size };
  kernel_stack = kernel_stack;
  message_queue = init_linked_list;
  tid = tid;
  trapframe = new_frame kernel_stack stack_data gp entry;
  sleep_channel = 0;
  stacks =
      record { length = user_stack_size; fp = 0; sp = 0; extra = 0; p_sp = 0; bottom = stack_data }
      ∷ [];
  state = set_just_allocated (set_state 0 runnable) 0;
  usp_top = add32 stack_data user_stack_size;
  usp_bottom = stack_data;
  pmp = record { addr = λ i. 0; enabled = 0; pmp_robin = 0 };
}

module _ {Dev : Type 0} where
  -- The result of malloc for the struct Stack is written through unchecked, so NULL is a fault; that
  -- for the stack's bytes is not checked at all. The members sp, p_sp and extra of the new struct
  -- Stack, which the source leaves as malloc gave them, are 0 here; they are read only behind a test of
  -- its fp.
  unfoldable pub create_task : ℕ → Cmd (Kernel Dev) ℕ
  create_task entry = do
    k ← get
    elim (get_tid k.tasks) [
      | none ↦ panic
      | some tid ↦ do
        task ← malloc
        if task == 0 then panic else do
          kernel_stack ← malloc
          if kernel_stack == 0 then panic else do
            stacks ← malloc
            stack_data ← malloc
            if stacks == 0 then (λ _. fault) else do
              sleeplock_init (task + queue_lock_offset)
              semaphore_init (task + queue_sema_offset) 0
              node ← malloc
              if node == 0 then panic else do
                let t : Task =
                    new_task task tid kernel_stack stack_data k.layout.gp k.layout.usertrapret entry
                modify
                    (λ s. record s { tasks = s.tasks ++ t ∷ []; task_count = add32 s.task_count 1 })
                pure tid
    ]

  unfoldable pub init_tasks : Cmd (Kernel Dev) (Unit {0})
  init_tasks = modify (λ k. record k { tasks = init_linked_list })

-- The places at which the scheduler's inner loop stops: the first runnable task from the place
-- `i` on.
unfoldable pub next_runnable : ℕ → List Task → Option ℕ
next_runnable i [] = none
next_runnable i (t ∷ rest) = if is_runnable t.state then some i else next_runnable (i + 1) rest

module _ {Dev : Type 0} ⦃metal : Metal Dev⦄ where
  -- What the scheduler does for a runnable task, up to the switch to it. The switch saves nothing that this
  -- model keeps.
  unfoldable pub enter_task : ℕ → Kernel Dev → Option (Kernel Dev)
  enter_task i k = elim (get_elem? k.tasks i) [
    | none ↦ none
    | some t ↦
        if is_runnable t.state
        then some (record k {
          tasks = set k.tasks i (record t { state = set_state t.state running });
          current = some i;
          pmp = restore_pmp_settings t.pmp k.pmp;
          mscratch = some i;
        })
        else none
  ]

  -- And after the task has switched back.
  unfoldable pub leave_task : Kernel Dev → Kernel Dev
  leave_task k = record k { current = none }
