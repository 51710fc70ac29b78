-- ===== src/Trap/Tests.antt =====
-- Runs of the access fault handler of kernel/src/trap.c.
use sofie_os.Base.{◌+◌, ◌*◌, ◌≡◌, ◌^◌, inl, refl, some, [], ◌∷◌, arith}
use sofie_os.Riscv.{Registers, blank_registers}
use sofie_os.Metal.Regs.{Regs, metal_regs, metal_regs-Lawful}
use sofie_os.Kernel.{Task, Kernel, done, Run, pure, modify, ◌>>◌}
use sofie_os.Fixture.{
  first_task, second_task, small_stack, small_mem, taken_entry, small_kernel, small_regs-IsReady,
  small_pmp-InTurn,
}
use sofie_os.Pmp.Device.{IsReady}
use sofie_os.Pmp.Slots.{Ranges}
use sofie_os.Word.{add32, sub32, shr2}
use sofie_os.Memory.{load32, store32, store8}
use sofie_os.Umalloc.{has_ownership, get_owner}
use sofie_os.Trap.Defs.{
  find_buffer, store_access_fault_handler, in_frame_of, overflows, previous_frame, second_stack,
  search_buffers, may_touch, open_range, usertrap, handle_trap,
}
use sofie_os.Trap.Fault.{IsPlain, fault-granted}
use sofie_os.Pmp.{current_slot, enable_buffer_access, choose_slot, take_slot, set_top_of_range}
use sofie_os.Stack.{top_stack}
use sofie_os.Trap.Opens.{Opens, fault-Opens, named_end}
use sofie_os.Trap.Corner.{fault-corner}
use sofie_os.Syscall.{Libc}
use sofie_os.Trap.Interrupts.{interrupt-yields}
use sofie_os.Task.{task_yield}

-- A C library that prints nothing.
abbrev mute_libc : Libc Regs
mute_libc = record { vprintf = λ format arglist. pure 0; rand = pure 4 }

-- A store into the allocated block.
abbrev store_fault : Registers
store_fault = record blank_registers { mepc = 0x100; mcause = 7; mtval = 0x1210 }

small_kernel-IsPlain : IsPlain small_kernel first_task small_stack 0x1210
unfolding in_frame_of overflows add32
small_kernel-IsPlain = record {
  place = 0;
  current = refl;
  task = refl;
  rest = [];
  stacks = refl;
  outside = refl;
  fits = refl;
  first = refl;
  beyond = refl;
}

fault-granted_example :
    let slot = current_slot small_kernel.pmp.stack_pmp small_kernel.pmp.pmp_robin in
    (k' : Kernel Regs) × (store_access_fault_handler store_fault small_kernel ≡ done tt k')
    × IsReady metal_regs k'.pmp.dev
    × Ranges metal_regs
        (2 * slot)
        (2 * slot + 1)
        taken_entry.address
        (add32 taken_entry.address taken_entry.length)
        1
        small_kernel.pmp.dev
        k'.pmp.dev
    × (k' ≡ record small_kernel { miss = add32 small_kernel.miss 1; pmp = k'.pmp })
unfolding find_buffer load32 store32 sub32 add32
fault-granted_example =
    fault-granted metal_regs-Lawful store_fault small_kernel first_task small_stack taken_entry
      small_kernel-IsPlain refl refl small_regs-IsReady small_pmp-InTurn (omega arith)

abbrev fault_end : Run (Kernel Regs) (Unit {0}) → Kernel Regs
fault_end (done a k) = k
fault_end _ = small_kernel

abbrev opened : Kernel Regs
opened = fault_end (store_access_fault_handler store_fault small_kernel)

opened_run : store_access_fault_handler store_fault small_kernel ≡ done tt opened
unfolding store_access_fault_handler in_frame_of overflows previous_frame second_stack
    search_buffers find_buffer may_touch has_ownership get_owner open_range top_stack
    enable_buffer_access choose_slot take_slot set_top_of_range add32 sub32 shr2 load32 store32
    store8
opened_run = refl

fault-Opens_example : Opens small_kernel first_task 0x1210 opened.pmp
fault-Opens_example = fault-Opens store_fault small_kernel opened 0 first_task refl refl opened_run

-- The second task lets its frame begin in the block of the first, and keeps 0x1300 under its frame pointer.
abbrev stray_task : Task
stray_task = record second_task { trapframe = record second_task.trapframe { fp = 0x1218 } }

abbrev stray_kernel : Kernel Regs
stray_kernel = record small_kernel {
  current = some 1;
  tasks = first_task ∷ stray_task ∷ [];
  mem = store32 small_mem 0x1210 0x1300;
}

abbrev stray_fault : Registers
stray_fault = record store_fault { mtval = 0x1250 }

stray_end : named_end stray_kernel stray_task ≡ 0x12f8
unfolding load32 store32 sub32
stray_end = refl

fault-corner_example :
    let slot = current_slot stray_kernel.pmp.stack_pmp stray_kernel.pmp.pmp_robin in
    (k' : Kernel Regs) × (store_access_fault_handler stray_fault stray_kernel ≡ done tt k')
    × IsReady metal_regs k'.pmp.dev
    × Ranges metal_regs
        (2 * slot)
        (2 * slot + 1)
        0x1218
        (named_end stray_kernel stray_task)
        1
        stray_kernel.pmp.dev
        k'.pmp.dev
    × (k' ≡ record stray_kernel { miss = add32 stray_kernel.miss 1; pmp = k'.pmp })
unfolding in_frame_of overflows add32
fault-corner_example =
    fault-corner metal_regs-Lawful stray_fault stray_kernel 1 stray_task small_stack [] refl refl
      refl refl refl refl (omega arith) (omega (arith, stray_end)) small_regs-IsReady
      small_pmp-InTurn (omega arith)

-- The same fault, from the trap on.
abbrev trapped : Kernel Regs
trapped = fault_end (usertrap mute_libc 1 store_fault small_kernel)

-- A timer interrupt of the running task.
abbrev timer_interrupt : Registers
timer_interrupt = record blank_registers { mcause = 2 ^ 31 + 7 }

interrupt-yields_example :
    handle_trap mute_libc 1 timer_interrupt small_kernel
    ≡ (do task_yield; modify (λ (s : Kernel Regs). record s { tick = add32 s.tick 1 })) small_kernel
interrupt-yields_example =
    interrupt-yields mute_libc 1 timer_interrupt small_kernel refl (inl refl) refl
