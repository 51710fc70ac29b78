-- ===== src/User/Defs.antt =====
-- Code that runs in user mode: traps, the stubs of system calls, accesses to memory.
use sofie_os.Base.{ℕ, zero, suc, Bool, ◌==◌, if◌then◌else◌}
use sofie_os.Memory.{store8}
use sofie_os.Riscv.{Registers}
use sofie_os.Metal.{Metal}
use sofie_os.Kernel.{
  TrapFrame, Kernel, Cmd, starved, ◌>>=◌, ◌>>◌, get, modify, pure, current_task, update_current,
}
use sofie_os.Syscall.{Libc}
use sofie_os.Trap.Defs.{
  trap_load_access_fault, trap_store_access_fault, trap_syscall, priv_user, usertrap,
}

-- The hart and the compiled program that it runs: whether the PMP lets a user-mode access to an
-- address pass, the registers of the running program at a trap, and the other registers there.
pub record Hart (Dev : Type 0) : Type 0 where
  pub permits : Dev → ℕ → Bool
  pub registers : Kernel Dev → TrapFrame
  pub status : Registers

module _ {Dev : Type 0} where
  -- `if (current_privileges == PRIV_USER) ...`
  unfoldable pub if_user : Cmd (Kernel Dev) (Unit {0}) → Cmd (Kernel Dev) (Unit {0})
  if_user m = do k ← get; if k.privileges == priv_user then m else pure tt

module _ {Dev : Type 0} ⦃metal : Metal Dev⦄ (libc : Libc Dev) (rounds : ℕ) (hart : Hart Dev) where
  -- trampoline.S saves the registers, here as `set` leaves them, into the frame of the current task, in
  -- which only kernel_sp stays, and goes on with usertrap.
  unfoldable pub trap : ℕ → ℕ → (TrapFrame → TrapFrame) → Cmd (Kernel Dev) (Unit {0})
  trap cause tval set = do
    k ← get
    let now = set (hart.registers k)
    update_current (λ t. record t { trapframe = record now { kernel_sp = t.trapframe.kernel_sp } })
    usertrap libc rounds (record hart.status { mepc = now.epc; mcause = cause; mtval = tval })

  -- `li a7, n; ecall; nop; ret` with its arguments in their registers. The result is in a0.
  unfoldable pub ecall : ℕ → (TrapFrame → TrapFrame) → Cmd (Kernel Dev) ℕ
  ecall n set = do
    trap trap_syscall 0 (λ f. record (set f) { a7 = n })
    t ← current_task
    pure t.trapframe.a0

  unfoldable pub ecall0 : ℕ → Cmd (Kernel Dev) ℕ
  ecall0 n = ecall n (λ f. f)

  unfoldable pub ecall1 : ℕ → ℕ → Cmd (Kernel Dev) ℕ
  ecall1 n x = ecall n (λ f. record f { a0 = x })

  unfoldable pub ecall2 : ℕ → ℕ → ℕ → Cmd (Kernel Dev) ℕ
  ecall2 n x y = ecall n (λ f. record f { a0 = x; a1 = y })

  -- The instruction that accesses `a`. While the PMP stops it, it traps, at most as many times as
  -- `faults` says, and runs again: the fault handler does not step over it.
  unfoldable pub access : ℕ → ℕ → ℕ → Cmd (Kernel Dev) (Unit {0})
  access zero cause a = starved
  access (suc faults) cause a =
      let again = access faults cause a in
      do k ← get; if hart.permits k.pmp.dev a then pure tt else do trap cause a (λ f. f); again

  -- `*a` and `*a = v` for bytes, in the mode that current_privileges names.
  unfoldable pub load_byte : ℕ → ℕ → Cmd (Kernel Dev) ℕ
  load_byte faults a = do
    k ← get
    (if k.privileges == priv_user then access faults trap_load_access_fault a else pure tt)
    k ← get
    pure (k.mem a)

  unfoldable pub store_byte : ℕ → ℕ → ℕ → Cmd (Kernel Dev) (Unit {0})
  store_byte faults a v = do
    k ← get
    (if k.privileges == priv_user then access faults trap_store_access_fault a else pure tt)
    modify (λ k. record k { mem = store8 k.mem a v })
