-- ===== src/Fixture.antt =====
-- A small state of the kernel, at which the tests run: two tasks, the first of them current, two
-- free blocks and one allocated block between them that belongs to task 1.
use sofie_os.Base.{ℕ, some, none, [], ◌∷◌, refl, arith}
use sofie_os.Memory.{Mem, store32}
use sofie_os.Metal.Regs.{Regs, metal_regs, blank_regs}
use sofie_os.Pmp.{Pmp}
use sofie_os.Pmp.Device.{IsReady}
use sofie_os.Pmp.Slots.{InTurn}
use sofie_os.Kernel.{FreeListNode, BufferEntry, Stack, Task, Kernel}
use sofie_os.Umalloc.Calls.{IsServing, IsCurrent}

abbrev pub small_stack : Stack
small_stack = record { length = 0x400; fp = 0; sp = 0; extra = 0; p_sp = 0; bottom = 0x8000 }

-- A task that runs, with its frame in the middle of its stack.
abbrev pub small_task : ℕ → ℕ → Task
small_task tid address = record {
  address = address;
  context = record { ra = 0; sp = 0 };
  kernel_stack = 0x6000;
  message_queue = [];
  tid = tid;
  trapframe = record {
    epc = 0;
    kernel_sp = 0x6300;
    sp = 0x8200;
    gp = 0;
    fp = 0x8300;
    a0 = 0x1208;
    a1 = 2;
    a2 = 0;
    a3 = 0;
    a4 = 0;
    a5 = 0;
    a7 = 17;
  };
  sleep_channel = 0;
  stacks = small_stack ∷ [];
  state = 2;
  usp_top = 0x8200;
  usp_bottom = 0x8000;
  pmp = record { addr = λ i. 0; enabled = 0; pmp_robin = 0 };
}

abbrev pub first_task : Task
first_task = small_task 1 0x2000

abbrev pub second_task : Task
second_task = small_task 2 0x3000

-- The header of the allocated block.
abbrev pub small_mem : Mem
small_mem = store32 (store32 (λ _. 0) 0x1200 0x100) 0x1204 1

abbrev pub low_block : FreeListNode
low_block = record { address = 0x1000; length = 0x40 }

abbrev pub high_block : FreeListNode
high_block = record { address = 0x1400; length = 0x80 }

abbrev pub taken_entry : BufferEntry
taken_entry = record { address = 0x1208; length = 0xf8; owner = 0 }

abbrev pub small_pmp : Pmp Regs
small_pmp = record { dev = blank_regs; pmp_robin = 0; stack_pmp = none }

abbrev pub small_kernel : Kernel Regs
small_kernel = record {
  layout = record {
    user_begin = 0x1000;
    user_end = 0x2000;
    stack_begin = 0x6000;
    user_heap = 0x1000;
    gp = 0;
    usertrapret = 0x100;
  };
  mem = small_mem;
  mallocs = 0x5000 ∷ 0x5100 ∷ [];
  free_list = low_block ∷ high_block ∷ [];
  buffers = taken_entry ∷ [];
  pmp = small_pmp;
  tasks = first_task ∷ second_task ∷ [];
  current = some 0;
  task_count = 2;
  mscratch = some 0;
  privileges = 0;
  tick = 0;
  miss = 0;
  call_cnt = 0;
}

pub small_regs-IsReady : IsReady metal_regs blank_regs
small_regs-IsReady = record { here = refl; unlocked = λ i h. refl }

pub small_pmp-InTurn : InTurn small_pmp
small_pmp-InTurn = record { robin = omega arith; current = omega arith }

pub small_kernel-IsServing : IsServing 0x1000 0x2000 small_kernel
small_kernel-IsServing = record {
  fits = omega arith;
  laid_out = omega arith;
  sorted = (tt, tt);
  ready = small_regs-IsReady;
  in_turn = small_pmp-InTurn;
}

pub small_kernel-IsCurrent : IsCurrent 0 first_task small_kernel
small_kernel-IsCurrent = record { here = refl; task = refl }

-- A device whose regions are all on and begin at the allocated block.
abbrev pub open_regs : Regs
open_regs i = record { config = record { l = 0; a = 1; x = 0; w = 1; r = 1 }; address = 0x482 }

abbrev pub open_pmp : Pmp Regs
open_pmp = record small_pmp { dev = open_regs }

pub open_regs-IsReady : IsReady metal_regs open_regs
open_regs-IsReady = record { here = refl; unlocked = λ i h. refl }

-- The kernel with all free memory below the allocated block.
abbrev pub low_kernel : Kernel Regs
low_kernel = record small_kernel { free_list = low_block ∷ [] }

pub low_kernel-IsServing : IsServing 0x1000 0x2000 low_kernel
low_kernel-IsServing = record {
  fits = omega arith;
  laid_out = omega arith;
  sorted = (tt, tt);
  ready = small_regs-IsReady;
  in_turn = small_pmp-InTurn;
}
