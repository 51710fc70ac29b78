-- ===== src/User/Board.antt =====
-- A small hart with its program, and states of the kernel, at which the tests of user code run.
use sofie_os.Base.{
  ==→eq, Bool, Bool-cases, Option, [], arith, false, if◌then◌else◌, inl, inr, none, not-==→ne, refl,
  some, suc, true, zero, ℕ, ◌&&◌, ◌+◌, ◌<◌, ◌==◌, ◌∷◌, ◌≡◌, ◌≤◌,
}
use sofie_os.Riscv.{blank_registers}
use sofie_os.Metal.{pmp_tor}
use sofie_os.Metal.Regs.{Regs, metal_regs}
use sofie_os.Kernel.{Kernel, Task, TrapFrame, done}
use sofie_os.Syscall.{Libc}
use sofie_os.Fixture.{first_task, second_task, small_kernel, small_pmp, small_stack}
use sofie_os.User.Defs.{Hart}
use sofie_os.User.Check.{ChecksPmp, in_range, passes_over}
use sofie_os.Word.{add32, shr2, sub32}
use sofie_os.Pmp.{Pmp, choose_slot, enable_buffer_access, set_top_of_range, take_slot}
use sofie_os.Buffer.{has_address}
use sofie_os.Task.{is_just_allocated}
use sofie_os.Stack.Frames.{IsCalling}
use sofie_os.User.Frames.{caller, entry}
use sofie_os.Stack.{anchor_frame}

-- Whether the first of the `n` regions from `i` on that matches lets the access pass; an access
-- that no region matches is stopped.
unfoldable pub decide : ℕ → ℕ → Regs → ℕ → Bool
decide zero i d a = false
decide (suc n) i d a =
    if passes_over metal_regs d a i
    then decide n (suc i) d a
    else (d i).config.a == pmp_tor && (d i).config.r == 1 && (d i).config.w == 1

abbrev pub program_frame : TrapFrame
program_frame = record first_task.trapframe { epc = 0x100 }

abbrev pub board : Hart Regs
board = record { permits = decide 8 0; registers = λ k. program_frame; status = blank_registers }

abbrev pub quiet : Libc Regs
quiet = record { vprintf = λ format arglist. done 0; rand = done 4 }

module _ (d : Regs) (a s : ℕ) (over : (j : ℕ) → j < s → passes_over metal_regs d a j ≡ true)
    (mode : (d s).config.a ≡ pmp_tor) (range : in_range metal_regs d a s ≡ true)
    (reads : (d s).config.r ≡ 1) (writes : (d s).config.w ≡ 1) where
  decide_here : (n : ℕ) → decide (suc n) s d a ≡ true
  unfolding decide
  decide_here n = rw (mode, range, reads, writes)

  decide_lem : (n i : ℕ) → i ≤ s → s < i + n → decide n i d a ≡ true
  unfolding decide
  decide_lem zero i h k = absurd (omega arith)
  decide_lem (suc n) i h k = elim (Bool-cases (s == i)) [
    | inl same ↦ rw (← ==→eq s i same) (decide_here n)
    | inr other ↦
        let lt : i < s = omega (arith, not-==→ne s i other) in
        rw (over i lt) (decide_lem n (suc i) (omega arith) (omega arith))
  ]

pub board-ChecksPmp : ChecksPmp metal_regs board
board-ChecksPmp = record {
  lowest_decides = λ d a i h over mode range reads writes.
      decide_lem d a i over mode range reads writes 8 0 (omega arith) (omega arith);
}

-- The first task runs in user mode, and reads a word of its block.
abbrev pub user_kernel : Kernel Regs
user_kernel = record small_kernel { privileges = 1 }

-- The first task owns its whole stack, and the PMP lets it touch its block.
abbrev pub owner_task : Task
owner_task = record first_task { usp_top = 0x8400 }

abbrev or_small : Option (Pmp Regs) → Pmp Regs
or_small none = small_pmp
or_small (some p) = p

abbrev block_pmp : Pmp Regs
block_pmp = or_small (enable_buffer_access 0x1208 0x1300 0 small_pmp)

abbrev pub owner_kernel : Kernel Regs
owner_kernel = record user_kernel { tasks = owner_task ∷ second_task ∷ []; pmp = block_pmp }

abbrev pub framed_pmp : Pmp Regs
framed_pmp = or_small (enable_buffer_access 0x8200 0x82f8 0 block_pmp)

unfoldable pub owner_kernel-IsCalling :
    IsCalling
      (entry board owner_kernel 0 owner_task small_stack)
      0
      (caller board owner_kernel 0 owner_task small_stack)
      small_stack
unfolding is_just_allocated anchor_frame has_address enable_buffer_access choose_slot take_slot
    set_top_of_range add32 sub32 shr2
owner_kernel-IsCalling = record {
  current = refl;
  task = refl;
  below = [];
  stacks = refl;
  settled = refl;
  anchored = refl;
  sp_inside = omega arith;
  node = 0x5000;
  pool = 0x5100 ∷ [];
  mallocs = refl;
  got = omega arith;
  sorted = (tt, tt);
  fresh = refl;
  pmp = framed_pmp;
  opens = refl;
}
