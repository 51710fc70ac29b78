-- ===== src/Stack/Tests.antt =====
-- Runs of the stack functions of kernel/src/task.c.
use sofie_os.Base.{
  ℕ, ◌+◌, ◌-◌, ◌%◌, ◌≤◌, ◌<◌, ◌≡◌, refl, false, ◌&&◌, ltb, leb, if◌then◌else◌, [], ◌∷◌, set, arith,
  inl, Option, none, some,
}
use sofie_os.Metal.Regs.{Regs, metal_regs}
use sofie_os.Kernel.{Task, Kernel, done, and_then}
use sofie_os.Fixture.{first_task, second_task, small_stack, small_kernel}
use sofie_os.Word.{add32, sub32}
use sofie_os.Task.{is_just_allocated}
use sofie_os.Task.Create.{user_stack_size}
use sofie_os.Stack.{new_length, frame_size, task_expand_stack, task_shrink_stack}
use sofie_os.Stack.Bounds.{new_length_bounds}
use sofie_os.Stack.Expand.{IsOverflowing, moved, task_expand_stack-moves}
use sofie_os.Stack.Shrink.{expand-shrink}
use sofie_os.Pmp.{Pmp, enable_buffer_access}

new_length_bounds_example :
    (0x400 < new_length 0x400)
    × (new_length 0x400 ≤ 0x400 + user_stack_size)
    × (new_length 0x400 % user_stack_size ≡ 0)
new_length_bounds_example = new_length_bounds 0x400 (omega arith)

-- The first task calls a function whose frame runs below its stack.
abbrev deep_task : Task
deep_task = record first_task {
  trapframe = record first_task.trapframe { sp = 0x7fc0; fp = 0x8040 };
}

abbrev deep_kernel : Kernel Regs
deep_kernel = record small_kernel {
  tasks = deep_task ∷ second_task ∷ [];
  mallocs = 0x9000 ∷ 0x9800 ∷ [];
}

deep_kernel-IsOverflowing : IsOverflowing deep_kernel 0 deep_task small_stack 0x9000 0x9800
unfolding new_length frame_size add32 sub32
deep_kernel-IsOverflowing = record {
  current = refl;
  task = refl;
  below = [];
  stacks = refl;
  pool = [];
  mallocs = refl;
  got = omega arith;
  got_node = omega arith;
  bottom = omega arith;
  sp_below = omega arith;
  fp_inside = omega arith;
  fp_small = omega arith;
  room = omega arith;
  apart = inl (omega arith);
}

-- Where the frame pointer goes.
abbrev deep_end : ℕ
deep_end = 0x9000 + new_length (frame_size deep_task)

abbrev deep_moved : Task
deep_moved = moved deep_kernel 0 0x9000 0x9800 deep_task small_stack deep_kernel-IsOverflowing

task_expand_stack-moves_example :
    (k' : Kernel Regs) × (task_expand_stack deep_kernel ≡ done tt k')
    × (k'.tasks ≡ set deep_kernel.tasks 0 deep_moved)
    × (deep_moved.trapframe.fp ≡ deep_end)
    × (deep_moved.trapframe.sp + (0x8040 - 0x7fc0) ≡ deep_end)
    × (0x9000 < deep_moved.trapframe.sp)
    × ((x : ℕ)
        → k'.mem x ≡ (
            if leb deep_end (x + (0x8040 - 0x8000)) && ltb x deep_end
            then deep_kernel.mem (0x8040 - (deep_end - x))
            else deep_kernel.mem x))
task_expand_stack-moves_example =
    task_expand_stack-moves deep_kernel 0 0x9000 0x9800 deep_task small_stack
      deep_kernel-IsOverflowing

expand-shrink_example :
    (k' : Kernel Regs) × (t' : Task) × (and_then
        (task_expand_stack deep_kernel)
        (λ _. task_shrink_stack)
      ≡ done tt k')
    × (k'.tasks ≡ set deep_kernel.tasks 0 t')
    × (t'.stacks ≡ deep_task.stacks)
    × (t'.trapframe.sp ≡ 0x8040)
    × (t'.usp_bottom ≡ 0x8000)
    × (t'.usp_top ≡ 0x8040)
    × (is_just_allocated t'.state ≡ false)
    × (k'.buffers ≡ deep_kernel.buffers)
expand-shrink_example =
    expand-shrink deep_kernel 0 0x9000 0x9800 deep_task small_stack deep_kernel-IsOverflowing
      (inl (omega arith), tt)

-- The first task owns its whole stack.
abbrev calling_task : Task
calling_task = record first_task { usp_top = 0x8400 }

abbrev calling_kernel : Kernel Regs
calling_kernel = record small_kernel { tasks = calling_task ∷ second_task ∷ [] }

abbrev pmp_or_old : Option (Pmp Regs) → Pmp Regs
pmp_or_old none = calling_kernel.pmp
pmp_or_old (some p) = p

-- The frame, without its two saved words, is open.
abbrev frame_pmp : Pmp Regs
frame_pmp = pmp_or_old (enable_buffer_access 0x8200 0x82f8 0 calling_kernel.pmp)
