-- ===== src/User/Tests.antt =====
-- Runs of user code on a small hart.
use sofie_os.Base.{false, ◌≤◌, ◌+◌, ◌<◌, ℕ, ◌≡◌, refl, inl, true, some, [], ◌∷◌, set, arith}
use sofie_os.Word.{add32, sub32, shr2}
use sofie_os.Memory.{load32, store32, store8}
use sofie_os.Metal.Regs.{Regs, metal_regs, metal_regs-Lawful}
use sofie_os.Kernel.{Kernel, Cmd, done, switched, panicked}
use sofie_os.Buffer.{has_address}
use sofie_os.Syscall.{find_syscall, table_entry}
use sofie_os.Trap.Defs.{find_buffer, in_frame_of, overflows}
use sofie_os.Trap.Fault.{IsPlain}
use sofie_os.Fixture.{
  low_block, first_task, second_task, small_stack, small_mem, taken_entry, small_regs-IsReady,
  small_pmp-InTurn,
}
use sofie_os.User.Defs.{store_byte, access, ecall}
use sofie_os.User.Calls.{ecall-returns, called, called_task, given}
use sofie_os.User.Frames.{left}
use sofie_os.User.Framed.{uprintf-prints, printed}
use sofie_os.User.Routines.{uprintf}
use sofie_os.User.Sys
use sofie_os.User.Board.{
  board, quiet, decide, user_kernel, board-ChecksPmp, owner_task, owner_kernel,
  owner_kernel-IsCalling,
}
use sofie_os.User.Locks.{acquire-waits, picked, IsVain, lock_args}
use sofie_os.Lock.Runs.{taken_mem, asleep_on}
use sofie_os.Lock.Words.{value_of, spin_of}
use sofie_os.User.Heap.{umalloc-usable}
use sofie_os.User.Stubs.{umalloc}
use sofie_os.Umalloc.{round_up, choose, choose_from}
use sofie_os.Umalloc.FreeList.{is_free}
use sofie_os.Umalloc.Calls.{IsServing}
use sofie_os.User.Touch.{saved, saved_task, access-granted, store_byte-denied}

user_kernel-IsPlain :
    IsPlain
      (saved board 0 user_kernel first_task)
      (saved_task board user_kernel first_task)
      small_stack
      0x1210
unfolding in_frame_of overflows add32
user_kernel-IsPlain = record {
  place = 0;
  current = refl;
  task = refl;
  rest = [];
  stacks = refl;
  outside = refl;
  fits = refl;
  first = refl;
  beyond = refl;
}

-- The second task runs in user mode: the block is the first task's.
abbrev stranger_kernel : Kernel Regs
stranger_kernel = record user_kernel { current = some 1 }

stranger_kernel-IsPlain :
    IsPlain
      (saved board 1 stranger_kernel second_task)
      (saved_task board stranger_kernel second_task)
      small_stack
      0x1210
unfolding in_frame_of overflows add32
stranger_kernel-IsPlain = record {
  place = 1;
  current = refl;
  task = refl;
  rest = [];
  stacks = refl;
  outside = refl;
  fits = refl;
  first = refl;
  beyond = refl;
}

store_byte-denied_example :
    store_byte quiet 1 board 1 0x1210 7 stranger_kernel
    ≡ panicked
        (record (saved board 1 stranger_kernel second_task) { miss = add32 stranger_kernel.miss 1 })
unfolding decide find_buffer load32 store32 sub32 add32
store_byte-denied_example =
    store_byte-denied quiet 1 board 0 0x1210 7 1 stranger_kernel second_task small_stack taken_entry
      refl refl refl refl stranger_kernel-IsPlain refl refl

access-granted_example :
    (k' : Kernel Regs) × (access quiet 1 board 2 5 0x1210 user_kernel ≡ done tt k')
    × (board.permits k'.pmp.dev 0x1210 ≡ true)
    × (k' ≡ record (saved board 0 user_kernel first_task) {
      miss = add32 0 1;
      privileges = 1;
      pmp = k'.pmp;
    })
unfolding decide find_buffer load32 store32 sub32 add32 shr2
access-granted_example =
    access-granted quiet 1 board metal_regs-Lawful board-ChecksPmp 0 5 0x1210 0 user_kernel
      first_task small_stack taken_entry (inl refl) refl refl refl user_kernel-IsPlain refl refl
      small_regs-IsReady small_pmp-InTurn (omega arith) (omega arith) (λ j h. absurd (omega arith))

-- sofie_rand, whose function returns 4.
ecall-returns_example :
    ecall quiet 1 board Sys.rand (λ f. f) user_kernel
    ≡ done 4 (record (called board Sys.rand (λ f. f) 0 user_kernel first_task) {
      privileges = 1;
      tasks =
          set
            (called board Sys.rand (λ f. f) 0 user_kernel first_task).tasks
            0
            (given 4 (called_task board Sys.rand (λ f. f) user_kernel first_task));
    })
unfolding find_syscall table_entry
ecall-returns_example =
    ecall-returns quiet 1 board Sys.rand (λ f. f) quiet.rand 0 4 first_task
      (called_task board Sys.rand (λ f. f) user_kernel first_task) user_kernel
      (called board Sys.rand (λ f. f) 0 user_kernel first_task) refl refl refl refl refl refl

uprintf-prints_example :
    uprintf quiet 1 board 0x7000 0x8210 owner_kernel
    ≡ done 0 (
        left board owner_kernel 0 owner_task small_stack owner_kernel-IsCalling small_mem (
          printed board owner_kernel 0 owner_task small_stack owner_kernel-IsCalling 0x7000 0x8210
            0))
uprintf-prints_example =
    uprintf-prints quiet 1 board owner_kernel 0 owner_task small_stack owner_kernel-IsCalling refl
      refl refl 0x7000 0x8210 0 refl refl

user_kernel-IsServing : IsServing 0x1000 0x2000 user_kernel
user_kernel-IsServing = record {
  fits = omega arith;
  laid_out = omega arith;
  sorted = (tt, tt);
  ready = small_regs-IsReady;
  in_turn = small_pmp-InTurn;
}

-- Six words of heap for the first task.
umalloc-usable_example :
    (k' : Kernel Regs) × (umalloc quiet 1 board 0x18 user_kernel ≡ done 0x1008 k')
    × (k'.privileges ≡ 1)
    × (0x1008 ≤ 0x1008)
    × (0x1008 + 0x18 ≤ 0x2000)
    × (load32 k'.mem 0x1004 ≡ 1)
    × ((x : ℕ)
        → 0x1008 ≤ x
        → x < 0x1008 + 0x18
        → (is_free user_kernel.free_list x ≡ true)
          × (is_free k'.free_list x ≡ false)
          × ((v : ℕ)
              → store_byte quiet 1 board 1 x v k'
                ≡ done tt (record k' { mem = store8 k'.mem x v })))
unfolding round_up add32 choose choose_from has_address
umalloc-usable_example =
    umalloc-usable quiet 1 board metal_regs-Lawful board-ChecksPmp 0x1000 0x2000 0 0 0x5000 0 0x18
      (0x5100 ∷ []) low_block first_task user_kernel user_kernel-IsServing refl (omega arith)
      (record { here = refl; task = refl }) (omega arith) (omega arith) refl refl refl
      (λ x l p q h. absurd (omega arith))

-- The lock is taken; the first task asks for it, is picked once in vain, and then when it is free.
abbrev contended_kernel : Kernel Regs
contended_kernel = record user_kernel { mem = store32 small_mem 0x4000 1 }

contended_kernel-IsVain : IsVain 0x4000 0 contended_kernel
unfolding load32 store32
contended_kernel-IsVain = record {
  task = first_task;
  current = refl;
  here = refl;
  spin = refl;
  held = omega arith;
}

free_words : (value_of 0x4000 user_kernel.mem ≡ 0) × (spin_of 0x4000 user_kernel.mem ≡ 0)
unfolding load32 store32
free_words = (refl, refl)

acquire-waits_example :
    let call = ecall quiet 3 board Sys.acquire_sleep_lock (lock_args 0x4000) contended_kernel in
    let t' =
      called_task board Sys.acquire_sleep_lock (lock_args 0x4000) contended_kernel first_task in
    let k1 = called board Sys.acquire_sleep_lock (lock_args 0x4000) 0 contended_kernel first_task in
    (rest : Cmd (Kernel Regs) ℕ) × (call ≡ switched (asleep_on 0x4000 0 t' k1) rest)
    × (picked call (contended_kernel ∷ user_kernel ∷ [])
        ≡ done 0 (record user_kernel {
          mem = taken_mem 0x4000 small_mem;
          tasks = set user_kernel.tasks 0 (record first_task {
            sleep_channel = 0;
            trapframe = record first_task.trapframe { a0 = 0 };
          });
        }))
    × (value_of 0x4000 (taken_mem 0x4000 small_mem) ≡ 1)
    × (spin_of 0x4000 (taken_mem 0x4000 small_mem) ≡ 0)
acquire-waits_example =
    acquire-waits quiet board 1 0x4000 0 first_task first_task contended_kernel user_kernel
      (contended_kernel ∷ []) refl refl contended_kernel-IsVain.spin contended_kernel-IsVain.held
      (contended_kernel-IsVain, tt) (omega arith) refl refl free_words.1 free_words.0
