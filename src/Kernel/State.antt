-- ===== src/Kernel/State.antt =====
-- The structs of kernel/task.h, kernel/trap.h, kernel/buffer.h and kernel/umalloc.h, and the
-- kernel's global variables as one record.
use sofie_os.Base.{ℕ, Option, List}
use sofie_os.Memory.{Mem}
use sofie_os.Pmp.{Pmp, Settings}

-- struct FreeListNode of kernel/umalloc.h, without its link
pub record FreeListNode : Type 0 where
  pub address : ℕ
  pub length : ℕ

-- struct BufferEntry of kernel/buffer.h, without its link
pub record BufferEntry : Type 0 where
  pub address : ℕ
  pub length : ℕ
  pub owner : ℕ

-- struct Context: the two registers that C code writes. swtch.S saves and restores the rest.
pub record Context : Type 0 where
  pub ra : ℕ
  pub sp : ℕ

-- struct TrapFrame: the registers that C code reads or writes. trampoline.S and trapret.S save and
-- restore the rest.
pub record TrapFrame : Type 0 where
  pub epc : ℕ
  pub kernel_sp : ℕ
  pub sp : ℕ
  pub gp : ℕ
  pub fp : ℕ
  pub a0 : ℕ
  pub a1 : ℕ
  pub a2 : ℕ
  pub a3 : ℕ
  pub a4 : ℕ
  pub a5 : ℕ
  pub a7 : ℕ

-- struct Stack, without its link; `bottom` is the member `data`
pub record Stack : Type 0 where
  pub length : ℕ
  pub fp : ℕ
  pub sp : ℕ
  pub extra : ℕ
  pub p_sp : ℕ
  pub bottom : ℕ

-- struct Task. `address` is where the struct lies; its queue_lock and queue_sema are words of the
-- memory at fixed offsets, since they are also the channels that tasks sleep on.
pub record Task : Type 0 where
  pub address : ℕ
  pub context : Context
  pub kernel_stack : ℕ
  pub message_queue : List ℕ
  pub tid : ℕ
  pub trapframe : TrapFrame
  pub sleep_channel : ℕ
  pub stacks : List Stack
  pub state : ℕ
  pub usp_top : ℕ
  pub usp_bottom : ℕ
  pub pmp : Settings

-- What the linker and the start-up code fix: section bounds, the global pointer, the address
-- of usertrapret.
pub record Layout : Type 0 where
  pub user_begin : ℕ
  pub user_end : ℕ
  pub stack_begin : ℕ
  pub user_heap : ℕ
  pub gp : ℕ
  pub usertrapret : ℕ

-- `mallocs` lists what the coming calls of malloc return; 0 is NULL, and a list that has run out
-- means that no memory is left. `current` is the place of the current task in `tasks`.
-- `task_count`, `tick`, `miss` and `call_cnt` are ints as their 32 bits. `mscratch` is the task whose
-- trap frame the register points to, and `none` for the frame that is no task's.
pub record Kernel (Dev : Type 0) : Type 0 where
  pub layout : Layout
  pub mem : Mem
  pub mallocs : List ℕ
  pub free_list : List FreeListNode
  pub buffers : List BufferEntry
  pub pmp : Pmp Dev
  pub tasks : List Task
  pub current : Option ℕ
  pub task_count : ℕ
  pub mscratch : Option ℕ
  pub privileges : ℕ
  pub tick : ℕ
  pub miss : ℕ
  pub call_cnt : ℕ
