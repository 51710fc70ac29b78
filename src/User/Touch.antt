-- ===== src/User/Touch.antt =====
-- A user-mode access to a buffer, from the instruction through usertrap and back.
use sofie_os.Base.{
  refl, ◌∙◌, ℕ, suc, ◌*◌, ◌<◌, ◌≡◌, ◌⊎◌, inr, ap, true, false, some, set, set-set, get_elem?,
  get_elem?-lt, get_elem?-set_self, arith,
}
use sofie_os.Word.{word_size, add32, shr2}
use sofie_os.Riscv.{Registers}
use sofie_os.Metal.{Metal, Lawful}
use sofie_os.Pmp.{current_slot}
use sofie_os.Pmp.Device.{IsReady}
use sofie_os.Pmp.Slots.{InTurn}
use sofie_os.Kernel.{BufferEntry, Stack, Task, Kernel, done, panicked, and_then}
use sofie_os.Syscall.{Libc}
use sofie_os.Trap.Defs.{
  find_buffer, store_access_fault_handler, priv_machine, priv_user, handle_trap, usertrap,
  usertrapret,
}
use sofie_os.Trap.Fault.{find_buffer_lem, IsPlain, is_granted, fault-granted, fault-denied}
use sofie_os.User.Defs.{Hart, trap, access, store_byte}
use sofie_os.User.Check.{ChecksPmp, passes_over, Ranges-permits}

module _ {Dev : Type 0} (hart : Hart Dev) where
  -- The trap has saved the program's registers into its task's frame.
  abbrev pub saved_task : Kernel Dev → Task → Task
  saved_task k t = record t {
    trapframe = record (hart.registers k) { kernel_sp = t.trapframe.kernel_sp };
  }

  abbrev pub saved : ℕ → Kernel Dev → Task → Kernel Dev
  saved i k t = record k { privileges = priv_machine; tasks = set k.tasks i (saved_task k t) }

  abbrev pub fault_csr : ℕ → ℕ → Kernel Dev → Registers
  fault_csr cause a k = record hart.status {
    mepc = (hart.registers k).epc;
    mcause = cause;
    mtval = a;
  }

module _ {Dev : Type 0} ⦃metal : Metal Dev⦄ (libc : Libc Dev) (rounds : ℕ) (hart : Hart Dev) where
  -- A trap for an access fault runs the handler on the saved registers.
  fault-run :
      (cause a i : ℕ) (t : Task) (k : Kernel Dev)
      → (cause ≡ 5) ⊎ (cause ≡ 7)
      → k.current ≡ some i
      → get_elem? k.tasks i ≡ some t
      → trap libc rounds hart cause a (λ f. f) k
        ≡ and_then
            (store_access_fault_handler (fault_csr hart cause a k) (saved hart i k t))
            (λ _. usertrapret)
  unfolding trap usertrap handle_trap
  fault-run cause a i t k kind current task =
      let u = saved_task hart k t in
      let lt = get_elem?-lt k.tasks i t task in
      ground (arith, kind, current, task, get_elem?-set_self k.tasks i u lt, set-set k.tasks i u u)

  -- A user-mode store at `a` that the PMP stops, by a task on its first stack, in a buffer that the
  -- task may not touch and that no test on the stacks claims: the kernel panics, with memory, the
  -- PMP and the buffer entries as they were. What has changed is the count of misses, the mode and
  -- the task's trap frame.
  pub store_byte-denied :
      (faults a v i : ℕ) (k : Kernel Dev) (t : Task) (s : Stack) (p : BufferEntry)
      → k.privileges ≡ priv_user
      → k.current ≡ some i
      → get_elem? k.tasks i ≡ some t
      → hart.permits k.pmp.dev a ≡ false
      → IsPlain (saved hart i k t) (saved_task hart k t) s a
      → find_buffer a k.buffers ≡ some p
      → is_granted k t p ≡ false
      → store_byte libc rounds hart (suc faults) a v k
        ≡ panicked (record (saved hart i k t) { miss = add32 k.miss 1 })
  unfolding store_byte access
  store_byte-denied faults a v i k t s p user current task stopped plain found refused =
      let after = record (saved hart i k t) { miss = add32 k.miss 1 } in
      let run =
        fault-denied (fault_csr hart 7 a k) (saved hart i k t) (saved_task hart k t) s p plain found
          refused in
      let stop : trap libc rounds hart 7 a (λ f. f) k ≡ panicked after =
        fault-run 7 a i t k (inr refl) current task ∙ ap (λ r. and_then r (λ _. usertrapret)) run in
      ground (arith, user, stopped, stop)

  -- A user-mode load or store at `a` that the PMP stops, by a task on its first stack, in a buffer
  -- that the task may touch and that no test on the stacks claims: on a lawful device with no
  -- locked region, where the slots to use next exist, the buffer's address is below 2^32, no region
  -- below the slot in turn matches `a`, and the word of `a` lies below the buffer's end, the access
  -- traps once and passes when it runs again. Behind it the PMP lets accesses to `a` pass, the task
  -- runs in user mode with the registers of the access, and nothing but these and the count of
  -- misses has changed; memory has not.
  pub access-granted :
      (laws : Lawful metal) (checks : ChecksPmp metal hart) (faults cause a i : ℕ) (k : Kernel Dev)
      (t : Task) (s : Stack) (p : BufferEntry)
      → (cause ≡ 5) ⊎ (cause ≡ 7)
      → k.current ≡ some i
      → get_elem? k.tasks i ≡ some t
      → hart.permits k.pmp.dev a ≡ false
      → IsPlain (saved hart i k t) (saved_task hart k t) s a
      → find_buffer a k.buffers ≡ some p
      → is_granted k t p ≡ true
      → IsReady metal k.pmp.dev
      → InTurn k.pmp
      → p.address < word_size
      → shr2 a < shr2 (add32 p.address p.length)
      → ((j : ℕ)
          → j < 2 * current_slot k.pmp.stack_pmp k.pmp.pmp_robin
          → passes_over metal k.pmp.dev a j ≡ true)
      → (k' : Kernel Dev) × (access libc rounds hart (suc (suc faults)) cause a k ≡ done tt k')
        × (hart.permits k'.pmp.dev a ≡ true)
        × (k' ≡ record (saved hart i k t) {
          miss = add32 k.miss 1;
          privileges = priv_user;
          pmp = k'.pmp;
        })
  unfolding access usertrapret
  access-granted laws checks faults cause a i k t s p kind current task stopped plain found granted
        ready turn small below over =
      let slot = current_slot k.pmp.stack_pmp k.pmp.pmp_robin in
      let (k1, run, ready', range, same) =
        fault-granted laws (fault_csr hart cause a k) (saved hart i k t) (saved_task hart k t) s p
          plain found granted ready turn small in
      let passed : trap libc rounds hart cause a (λ f. f) k
          ≡ done tt (record k1 { privileges = priv_user }) =
        fault-run cause a i t k kind current task ∙ ap (λ r. and_then r (λ _. usertrapret)) run in
      let open_now : hart.permits k1.pmp.dev a ≡ true =
        Ranges-permits metal hart slot p.address (add32 p.address p.length) a k.pmp.dev k1.pmp.dev
          checks turn.current range (find_buffer_lem a k.buffers p found).2 below over in
      (
        record k1 { privileges = priv_user },
        ground (arith, stopped, passed, open_now),
        open_now,
        ap (λ (z : Kernel Dev). record z { privileges = priv_user }) same,
      )
