-- ===== src/Syscall/Tests.antt =====
-- Runs of system calls.
use sofie_os.Base.{
  ◌≡◌, inr, refl, ◌&&◌, leb, ltb, ◌==◌, if◌then◌else◌, set, arith, ℕ, ◌⊎◌, get_elem?, ◌+◌, ◌≤◌, inl,
  ◌||◌, some, none, [], ◌∷◌,
}
use sofie_os.Metal.Regs.{Regs, metal_regs, metal_regs-Lawful}
use sofie_os.Kernel.{done, and_then, update_task, Cmd, pure, Task, Kernel, Run, FreeListNode}
use sofie_os.Fixture.{first_task, small_kernel, second_task, small_regs-IsReady, small_pmp-InTurn}
use sofie_os.Memory.{load32, store32, store8}
use sofie_os.Umalloc.{
  minus_one, header_size, round_up, allocate_memory, choose, choose_from, take_block, shrink_node,
  delete_node,
}
use sofie_os.Syscall.{Libc, syscalls, syscall, sys_change_owner, sys_malloc, sys_free, argraw}
use sofie_os.Syscall.Calls.{owner_word, returned, syscall-dispatches, sys_change_owner_lem}
use sofie_os.Word.{add32, sub32, shr2}
use sofie_os.Buffer.{add_buffer_entry, insert_entry}
use sofie_os.Buffer.Lookup.{entry_at}
use sofie_os.Pmp.{enable_buffer_access, choose_slot, take_slot, set_top_of_range}
use sofie_os.Umalloc.FreeList.{IsLaidOut, is_free, in_block, free_bytes}
use sofie_os.Umalloc.Release.{links}
use sofie_os.Umalloc.Calls.{IsServing, IsCurrent}
use sofie_os.Syscall.Heap.{sys_malloc-wraps, sys_free-frees}

-- A C library that prints nothing.
abbrev quiet_libc : Libc Regs
quiet_libc = record { vprintf = λ format arglist. pure 0; rand = pure 4 }

syscall-dispatches_example :
    ((1 ≤ first_task.trapframe.a7)
      × (first_task.trapframe.a7 ≤ 16)
      × (call : Cmd (Kernel Regs) ℕ) × (get_elem? (syscalls quiet_libc 1) first_task.trapframe.a7
          ≡ some (some call))
      × (syscall quiet_libc 1 small_kernel
          ≡ and_then (call small_kernel) (λ v. update_task 0 (returned v))))
    ⊎ (((first_task.trapframe.a7 ≡ 0) ⊎ (17 ≤ first_task.trapframe.a7))
        × (syscall quiet_libc 1 small_kernel
            ≡ done tt (record small_kernel {
              tasks = set small_kernel.tasks 0 (returned minus_one first_task);
            })))
syscall-dispatches_example = syscall-dispatches quiet_libc 1 0 small_kernel first_task refl refl

sys_change_owner_lem_example :
    let a = first_task.trapframe.a0 in
    let owns =
      leb small_kernel.layout.user_begin a
      && ltb a small_kernel.layout.user_end
      && load32 small_kernel.mem (owner_word a) == first_task.tid in
    sys_change_owner small_kernel ≡ (
      if owns
      then done 0 (record small_kernel {
        mem = store32 small_kernel.mem (owner_word a) first_task.trapframe.a1;
      })
      else done minus_one small_kernel)
sys_change_owner_lem_example =
    sys_change_owner_lem 0 small_kernel first_task refl refl (omega arith)

-- The first task asks for `n` bytes.
abbrev asking : ℕ → Task
asking n = record first_task { trapframe = record first_task.trapframe { a0 = n } }

abbrev asking_kernel : ℕ → Kernel Regs
asking_kernel n = record small_kernel { tasks = asking n ∷ second_task ∷ [] }

asking_kernel-IsServing : (n : ℕ) → IsServing 0x1000 0x2000 (asking_kernel n)
asking_kernel-IsServing n = record {
  fits = omega arith;
  laid_out = omega arith;
  sorted = (tt, tt);
  ready = small_regs-IsReady;
  in_turn = small_pmp-InTurn;
}

asking_kernel-IsCurrent : (n : ℕ) → IsCurrent 0 (asking n) (asking_kernel n)
asking_kernel-IsCurrent n = record { here = refl; task = refl }

abbrev end_of : Run (Kernel Regs) ℕ → Kernel Regs
end_of (done a k) = k
end_of _ = small_kernel

abbrev wrapped : Kernel Regs
wrapped = end_of (sys_malloc (asking_kernel 0xfffffffc))

wrapped_run : sys_malloc (asking_kernel 0xfffffffc) ≡ done 0x1008 wrapped
unfolding sys_malloc argraw allocate_memory choose choose_from take_block shrink_node delete_node
    round_up add32 sub32 store32 store8 add_buffer_entry insert_entry enable_buffer_access
    choose_slot take_slot set_top_of_range shr2
wrapped_run = refl

sys_malloc-wraps_example :
    (load32 wrapped.mem 0x1000 ≤ 8)
    × (free_bytes small_kernel.free_list ≤ free_bytes wrapped.free_list + 8)
sys_malloc-wraps_example =
    sys_malloc-wraps metal_regs-Lawful 0x1000 0x2000 0 0x1008 (asking 0xfffffffc)
      (asking_kernel 0xfffffffc) wrapped (asking_kernel-IsServing 0xfffffffc) (omega arith)
      (asking_kernel-IsCurrent 0xfffffffc) (omega arith) (omega arith) wrapped_run (omega arith)

-- The second task runs, and names the block of the first.
abbrev second_runs : Kernel Regs
second_runs = record small_kernel { current = some 1 }

sys_free-frees_example :
    let block = sub32 0x1208 header_size in
    let node : FreeListNode = record { address = block; length = load32 second_runs.mem block } in
    (k' : Kernel Regs) × (sys_free second_runs ≡ done 0 k')
    × IsLaidOut 0x1000 0x2000 k'.free_list
    × ((x : ℕ)
        → is_free k'.free_list x ≡ (
            links block second_runs.free_list && in_block node x
            || is_free second_runs.free_list x))
    × ((a : ℕ)
        → entry_at a k'.buffers ≡ (if 0x1208 == a then none else entry_at a second_runs.buffers))
unfolding sub32 load32 store32
sys_free-frees_example =
    sys_free-frees 0x1000 0x2000 1 0x5000 (0x5100 ∷ []) second_task second_runs
      (record {
        fits = omega arith;
        laid_out = omega arith;
        sorted = (tt, tt);
        ready = small_regs-IsReady;
        in_turn = small_pmp-InTurn;
      })
      (record { here = refl; task = refl }) refl (omega arith) (omega arith) (omega arith)
      (omega arith) (inl (omega arith), (inr (omega arith), tt))
