-- ===== src/User/Calls.antt =====
-- The stubs of kernel/src/syscall.S, from the ecall to the instruction behind it.
use sofie_os.Base.{
  ℕ, ◌≡◌, refl, some, set, ap, ◌∙◌, set-set, get_elem?, get_elem?-lt, get_elem?-set_self, arith,
}
use sofie_os.Word.{add32}
use sofie_os.Metal.{Metal}
use sofie_os.Kernel.{
  Task, TrapFrame, Kernel, Cmd, done, and_then, and_then_assoc, ◌>>=◌, ◌>>◌, pure, update_task,
  current_task,
}
use sofie_os.Syscall.{
  Libc, table_entry, find_syscall, syscall, sys_dump_pmp, sys_malloc, sys_free, sys_change_owner,
  sys_new_task, sys_post_message, sys_get_message, sys_acquire_sleep_lock, sys_release_sleep_lock,
  sys_wait_semaphore, sys_post_semaphore, sys_printf, sys_memcpy,
}
use sofie_os.Stack.{sys_set_protected_stack_top, sys_restore_protected_stack_top}
use sofie_os.Trap.Defs.{priv_machine, priv_user, handle_trap, usertrap, usertrapret}
use sofie_os.User.Defs.{Hart, trap, ecall}
use sofie_os.User.Sys

-- The task when its stub returns `v`.
abbrev pub given : ℕ → Task → Task
given v t = record t { trapframe = record t.trapframe { a0 = v } }

module _ {Dev : Type 0} (hart : Hart Dev) where
  -- The frame that a trap leaves.
  abbrev pub saved_frame : (TrapFrame → TrapFrame) → Kernel Dev → Task → TrapFrame
  saved_frame set k t = record (set (hart.registers k)) { kernel_sp = t.trapframe.kernel_sp }

  -- The task and the state in which the system call's function starts: the task goes on behind the
  -- ecall.
  abbrev pub called_task : ℕ → (TrapFrame → TrapFrame) → Kernel Dev → Task → Task
  called_task n args k t =
      let f = saved_frame (λ g. record (args g) { a7 = n }) k t in
      record t { trapframe = record f { epc = add32 f.epc 4 } }

  abbrev pub called : ℕ → (TrapFrame → TrapFrame) → ℕ → Kernel Dev → Task → Kernel Dev
  called n args i k t = record k {
    privileges = priv_machine;
    tasks = set k.tasks i (called_task n args k t);
  }

module _ {Dev : Type 0} ⦃metal : Metal Dev⦄ (libc : Libc Dev) (rounds : ℕ) where
  -- Each number of kernel/syscall.h selects the function of its name in the table of kernel/src/trap.c.
  pub find_syscall_numbers :
      (find_syscall libc rounds Sys.dump_pmp ≡ some sys_dump_pmp)
      × (find_syscall libc rounds Sys.set_protected_stack_top ≡ some sys_set_protected_stack_top)
      × (find_syscall libc rounds Sys.restore_protected_stack_top
          ≡ some sys_restore_protected_stack_top)
      × (find_syscall libc rounds Sys.malloc ≡ some sys_malloc)
      × (find_syscall libc rounds Sys.free ≡ some sys_free)
      × (find_syscall libc rounds Sys.change_owner ≡ some sys_change_owner)
      × (find_syscall libc rounds Sys.new_task ≡ some sys_new_task)
      × (find_syscall libc rounds Sys.post_message ≡ some (sys_post_message rounds))
      × (find_syscall libc rounds Sys.get_message ≡ some (sys_get_message rounds))
      × (find_syscall libc rounds Sys.acquire_sleep_lock ≡ some (sys_acquire_sleep_lock rounds))
      × (find_syscall libc rounds Sys.release_sleep_lock ≡ some sys_release_sleep_lock)
      × (find_syscall libc rounds Sys.wait_semaphore ≡ some (sys_wait_semaphore rounds))
      × (find_syscall libc rounds Sys.post_semaphore ≡ some sys_post_semaphore)
      × (find_syscall libc rounds Sys.printf ≡ some (sys_printf libc))
      × (find_syscall libc rounds Sys.memcpy ≡ some sys_memcpy)
      × (find_syscall libc rounds Sys.rand ≡ some libc.rand)
  unfolding find_syscall table_entry
  find_syscall_numbers = (
    refl, refl, refl, refl, refl, refl, refl, refl, refl, refl, refl, refl, refl, refl, refl, refl,
  )

  module _ (hart : Hart Dev) where
    -- What follows the function of a system call of the task at `i`: its result goes to the task's a0, and
    -- the task goes on in user mode.
    abbrev pub answer : ℕ → ℕ → Cmd (Kernel Dev) ℕ
    answer i v = do update_task i (given v); usertrapret; t ← current_task; pure t.trapframe.a0

    syscall-run :
        (call : Cmd (Kernel Dev) ℕ) (i : ℕ) (t : Task) (k : Kernel Dev)
        → k.current ≡ some i
        → get_elem? k.tasks i ≡ some t
        → find_syscall libc rounds t.trapframe.a7 ≡ some call
        → syscall libc rounds k ≡ and_then (call k) (λ v. update_task i (given v))
    unfolding syscall
    syscall-run call i t k current task found = ground (arith, current, task, found)

    trap-run :
        (n : ℕ) (args : TrapFrame → TrapFrame) (i : ℕ) (t : Task) (k : Kernel Dev)
        → k.current ≡ some i
        → get_elem? k.tasks i ≡ some t
        → ecall libc rounds hart n args k
          ≡ and_then
              (and_then (syscall libc rounds (called hart n args i k t)) (λ _. usertrapret))
              (λ _. do t ← current_task; pure t.trapframe.a0)
    unfolding ecall trap usertrap handle_trap
    trap-run n args i t k current task =
        let f = saved_frame hart (λ g. record (args g) { a7 = n }) k t in
        let lt = get_elem?-lt k.tasks i t task in
        let t1 : Task = record t { trapframe = f } in
        let t2 = called_task hart n args k t in
        ground (
          arith,
          current,
          task,
          get_elem?-set_self k.tasks i t1 lt,
          set-set k.tasks i t1 t1,
          set-set k.tasks i t1 t2,
        )

    -- A stub whose number selects a function runs the function and then answers.
    pub ecall-run :
        (n : ℕ) (args : TrapFrame → TrapFrame) (call : Cmd (Kernel Dev) ℕ) (i : ℕ) (t : Task)
        (k : Kernel Dev)
        → k.current ≡ some i
        → get_elem? k.tasks i ≡ some t
        → find_syscall libc rounds n ≡ some call
        → ecall libc rounds hart n args k ≡ and_then (call (called hart n args i k t)) (answer i)
    ecall-run n args call i t k current task found =
        let t2 = called_task hart n args k t in
        let k2 = called hart n args i k t in
        let at : get_elem? (set k.tasks i t2) i ≡ some t2 =
          get_elem?-set_self k.tasks i t2 (get_elem?-lt k.tasks i t task) in
        trap-run n args i t k current task
        ∙ rw (syscall-run call i t2 k2 current at found) (simp and_then_assoc)

    pub answer-run :
        (i v : ℕ) (u : Task) (k : Kernel Dev)
        → k.current ≡ some i
        → get_elem? k.tasks i ≡ some u
        → answer i v k
          ≡ done v (record k { privileges = priv_user; tasks = set k.tasks i (given v u) })
    unfolding usertrapret
    answer-run i v u k current task = ground (
      arith,
      current,
      task,
      get_elem?-set_self k.tasks i (given v u) (get_elem?-lt k.tasks i u task),
    )

    -- A stub whose number selects a function: if the function, which finds the stub's registers in the
    -- trap frame, returns `v` while the caller is current, then so does the stub, in user mode, behind
    -- the ecall; the caller's a0 is `v`, and the state is otherwise as the function left it.
    pub ecall-returns :
        (n : ℕ) (args : TrapFrame → TrapFrame) (call : Cmd (Kernel Dev) ℕ) (i v : ℕ) (t u : Task)
        (k k' : Kernel Dev)
        → k.current ≡ some i
        → get_elem? k.tasks i ≡ some t
        → find_syscall libc rounds n ≡ some call
        → call (called hart n args i k t) ≡ done v k'
        → k'.current ≡ some i
        → get_elem? k'.tasks i ≡ some u
        → ecall libc rounds hart n args k
          ≡ done v (record k' { privileges = priv_user; tasks = set k'.tasks i (given v u) })
    ecall-returns n args call i v t u k k' current task found run same after =
        ecall-run n args call i t k current task found
        ∙ ap (λ r. and_then r (answer i)) run
        ∙ answer-run i v u k' same after
