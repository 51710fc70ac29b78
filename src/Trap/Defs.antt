-- ===== src/Trap/Defs.antt =====
-- usertrap of kernel/src/trap.c and its handlers. What they print is left out.
use sofie_os.Base.{
  ℕ, ◌/◌, ◌%◌, ◌^◌, Bool, false, not, ◌&&◌, ◌||◌, Option, none, some, List, [], ◌∷◌, ◌==◌, leb, ltb,
  if◌then◌else◌,
}
use sofie_os.Word.{add32, sub32}
use sofie_os.Riscv.{Registers, r_mepc, r_mcause, r_mtval, r_mstatus}
use sofie_os.Metal.{Metal}
use sofie_os.Pmp.{enable_buffer_access, clear_buffer_access}
use sofie_os.Kernel.{
  BufferEntry, Stack, Task, Kernel, Cmd, panic, fault, ◌>>=◌, ◌>>◌, get, modify, lift_pmp, pure,
  read_word, current_task, update_task, update_current,
}
use sofie_os.Task.{task_yield}
use sofie_os.Umalloc.{has_ownership}
use sofie_os.Stack.{top_stack, task_expand_stack, task_shrink_stack}
use sofie_os.Syscall.{Libc, dump_from, syscall}

abbrev pub trap_load_access_fault : ℕ
trap_load_access_fault = 5

abbrev pub trap_store_access_fault : ℕ
trap_store_access_fault = 7

abbrev pub trap_syscall : ℕ
trap_syscall = 8

abbrev pub priv_machine : ℕ
priv_machine = 0

abbrev pub priv_user : ℕ
priv_user = 1

-- IS_INTERRUPT
abbrev pub is_interrupt : ℕ → Bool
is_interrupt x = x / 2 ^ 31 % 2 == 1

-- The loop over the buffer entries: the one that it stops at.
unfoldable pub find_buffer : ℕ → List BufferEntry → Option BufferEntry
find_buffer a [] = none
find_buffer a (p ∷ rest) =
    let later = find_buffer a rest in
    if leb p.address a then (if ltb a (add32 p.address p.length) then some p else later) else none

abbrev second_of : List Stack → Option Stack
second_of [] = none
second_of (s ∷ []) = none
second_of (s ∷ below ∷ rest) = some below

-- `task->stacks->data + task->stacks->length`
abbrev pub stack_end : Stack → ℕ
stack_end s = add32 s.bottom s.length

-- The address lies in the part of the stack that the task may touch.
unfoldable pub in_frame_of : Task → ℕ → Bool
in_frame_of t a = leb t.usp_bottom a && ltb a t.usp_top

-- Case 1: the frame pointer is in the current stack, and the stack pointer below it.
unfoldable pub overflows : Task → Stack → Bool
overflows t s = ltb t.trapframe.sp s.bottom && leb t.trapframe.fp (stack_end s)

module _ {Dev : Type 0} where
  -- `task->stacks->next->...`
  unfoldable pub second_stack : Task → Cmd (Kernel Dev) Stack
  second_stack t k = elim (second_of t.stacks) [ none ↦ fault | some s ↦ pure s k ]

  -- Case 2: the frame pointer is in the previous stack, and the stack pointer above this one.
  unfoldable pub previous_frame : Task → Stack → Cmd (Kernel Dev) Bool
  previous_frame t s = if s.fp == 0 then pure false else do
    below ← second_stack t
    pure (
        leb below.bottom t.trapframe.fp
        && leb t.trapframe.fp (stack_end below)
        && leb (stack_end s) t.trapframe.sp)

module _ {Dev : Type 0} ⦃metal : Metal Dev⦄ where
  -- The test of ownership, for an entry in which the address lies.
  unfoldable pub may_touch : Task → BufferEntry → Cmd (Kernel Dev) Bool
  may_touch t p = do
    k ← get
    owned ← has_ownership p.address
    let in_heap =
        leb k.layout.user_begin p.address && ltb (add32 p.address p.length) k.layout.user_end
    pure
        (not (p.owner == 0 && in_heap && not owned || not (p.owner == 0) && not (t.tid == p.owner)))

  unfoldable pub open_range : ℕ → ℕ → ℕ → Cmd (Kernel Dev) (Unit {0})
  open_range from to mode = lift_pmp (enable_buffer_access from to mode)

  unfoldable pub deny : Cmd (Kernel Dev) (Unit {0})
  deny = do dump_from 8 0; panic

  -- Cases 3 and 4: the frame pointer moves between the current stack and the previous one.
  unfoldable pub move_frame : ℕ → Task → Stack → Cmd (Kernel Dev) (Unit {0})
  move_frame a t s =
      let fp = t.trapframe.fp in
      if not (s.fp == 0) && fp == stack_end s && leb fp a && leb s.bottom a
      then update_current (λ u. record u { trapframe = record u.trapframe { fp = s.fp } })
      else (if not (s.fp == 0) && fp == s.fp && ltb a fp
          then (do
            update_current (λ u. record u { trapframe = record u.trapframe { fp = stack_end s } })
            modify (λ k. record k { pmp = clear_buffer_access (stack_end s) k.pmp }))
          else deny)

  -- From the loop over the buffer entries on.
  unfoldable pub search_buffers : ℕ → Task → Stack → Cmd (Kernel Dev) (Unit {0})
  search_buffers a t s = do
    k ← get
    elim (find_buffer a k.buffers) [
      | none ↦ move_frame a t s
      | some p ↦ do
        allowed ← may_touch t p
        if allowed then open_range p.address (add32 p.address p.length) 0 else deny
    ]

  unfoldable pub store_access_fault_handler : Registers → Cmd (Kernel Dev) (Unit {0})
  store_access_fault_handler csr = do
    modify (λ k. record k { miss = add32 k.miss 1 })
    let a = r_mtval csr
    t ← current_task
    if in_frame_of t a then open_range t.usp_bottom t.usp_top 2 else do
      s ← top_stack t
      if overflows t s then task_expand_stack else do
        shrink ← previous_frame t s
        if shrink then task_shrink_stack else do
          let fp = t.trapframe.fp
          previous ← read_word (sub32 fp 8)
          if leb fp a && ltb a (sub32 previous 8)
              then open_range fp (sub32 previous 8) 0
              else search_buffers a t s

  unfoldable pub timer_intrupt_handler : Cmd (Kernel Dev) (Unit {0})
  timer_intrupt_handler = task_yield

  unfoldable pub usertrapret : Cmd (Kernel Dev) (Unit {0})
  usertrapret = modify (λ k. record k { privileges = priv_user })

  -- `tf->epc = ...`: the frame that is no task's is not kept.
  abbrev pub set_epc : ℕ → Cmd (Kernel Dev) (Unit {0})
  set_epc epc = do
    k ← get
    elim k.current [
      | none ↦ pure tt
      | some i ↦ update_task i (λ t. record t { trapframe = record t.trapframe { epc = epc } })
    ]

  -- The four branches of usertrap. The next timer interrupt is the device's state.
  unfoldable pub handle_trap : Libc Dev → ℕ → Registers → Cmd (Kernel Dev) (Unit {0})
  handle_trap libc rounds csr =
      let cause = r_mcause csr in
      let interrupt = is_interrupt cause in
      if not interrupt && cause == trap_syscall
      then (do set_epc (add32 (r_mepc csr) 4); syscall libc rounds)
      else (if not interrupt
            && (cause == trap_store_access_fault || cause == trap_load_access_fault)
          then store_access_fault_handler csr
          else (if interrupt
              then (do
                (if r_mstatus csr / 2 ^ 10 % 4 == 0 then timer_intrupt_handler else pure tt)
                modify (λ k. record k { tick = add32 k.tick 1 }))
              else deny))

  unfoldable pub usertrap : Libc Dev → ℕ → Registers → Cmd (Kernel Dev) (Unit {0})
  usertrap libc rounds csr = do
    modify (λ k. record k { privileges = priv_machine })
    set_epc (r_mepc csr)
    handle_trap libc rounds csr
    usertrapret
