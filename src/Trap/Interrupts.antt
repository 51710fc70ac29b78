-- ===== src/Trap/Interrupts.antt =====
-- Timer interrupts: the third branch of usertrap of kernel/src/trap.c.
use sofie_os.Base.{ℕ, ◌/◌, ◌%◌, ◌^◌, ◌≡◌, ◌⊎◌, inl, inr, true, ◌==◌, if◌then◌else◌, arith}
use sofie_os.Word.{add32}
use sofie_os.Riscv.{Registers}
use sofie_os.Metal.{Metal}
use sofie_os.Kernel.{Kernel, Cmd, ◌>>◌, modify}
use sofie_os.Task.{task_yield}
use sofie_os.Syscall.{Libc}
use sofie_os.Trap.Defs.{is_interrupt, handle_trap, timer_intrupt_handler}

-- MPP, bits 12 and 11 of mstatus: 0 is user mode and 3 machine mode.
abbrev pub previous_privilege : Registers → ℕ
previous_privilege h = h.mstatus / 2 ^ 11 % 4

-- The bits 10 and 11 tell the two modes apart as well, where bit 10, which is reserved, is 0.
mode_test :
    (m : ℕ)
    → (m / 2 ^ 11 % 4 ≡ 0) ⊎ (m / 2 ^ 11 % 4 ≡ 3)
    → m / 2 ^ 10 % 2 ≡ 0
    → (m / 2 ^ 10 % 4 == 0) ≡ (m / 2 ^ 11 % 4 == 0)
mode_test m (inl user) reserved = ground arith
mode_test m (inr machine) reserved = ground arith

module _ {Dev : Type 0} ⦃metal : Metal Dev⦄ where
  -- On a hart with user and machine mode, whose reserved bit 10 of mstatus is 0: at an interrupt the
  -- current task yields exactly if the interrupt came from user mode, and either way the tick counts up,
  -- behind the yield. So the bits that usertrap reads, 10 and 11 in place of 11 and 12, tell the same.
  pub interrupt-yields :
      (libc : Libc Dev) (rounds : ℕ) (csr : Registers) (k : Kernel Dev)
      → is_interrupt csr.mcause ≡ true
      → (previous_privilege csr ≡ 0) ⊎ (previous_privilege csr ≡ 3)
      → csr.mstatus / 2 ^ 10 % 2 ≡ 0
      → let count : Cmd (Kernel Dev) (Unit {0}) =
          modify (λ s. record s { tick = add32 s.tick 1 }) in
        handle_trap libc rounds csr k
        ≡ (if previous_privilege csr == 0 then (do task_yield; count) else count) k
  unfolding handle_trap timer_intrupt_handler
  interrupt-yields libc rounds csr k interrupt modes reserved =
      ground (arith, mode_test csr.mstatus modes reserved)
