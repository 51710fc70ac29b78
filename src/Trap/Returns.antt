-- ===== src/Trap/Returns.antt =====
-- usertrap of kernel/src/trap.c as a whole.
use sofie_os.Base.{ℕ, ◌≡◌, ◌⊎◌, true}
use sofie_os.Riscv.{Registers}
use sofie_os.Metal.{Metal}
use sofie_os.Kernel.{Kernel, Cmd, ◌>>◌}
use sofie_os.Syscall.{Libc}
use sofie_os.Trap.Defs.{is_interrupt, set_epc, priv_machine}

-- The traps that the kernel serves: interrupts, system calls and the two access faults.
abbrev pub IsServed : ℕ → Type 0
IsServed cause = (is_interrupt cause ≡ true) ⊎ (cause ≡ 8) ⊎ (cause ≡ 7) ⊎ (cause ≡ 5)

module _ {Dev : Type 0} ⦃metal : Metal Dev⦄ (libc : Libc Dev) (rounds : ℕ) (csr : Registers) where
  -- The state at the dispatch.
  abbrev entry : Cmd (Kernel Dev) (Unit {0})
  entry k = set_epc csr.mepc (record k { privileges = priv_machine })
