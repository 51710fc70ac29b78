-- ===== src/User/Frames.antt =====
-- A function of user mode between the system calls that close and open its frame.
use sofie_os.Base.{
  ℕ, ◌≡◌, refl, sym, some, ◌∷◌, set, set-set, get_elem?, get_elem?-lt, get_elem?-set_self, arith,
}
use sofie_os.Word.{add32}
use sofie_os.Memory.{Mem}
use sofie_os.Metal.{Metal}
use sofie_os.Pmp.{clear_buffer_access}
use sofie_os.Kernel.{Stack, Task, Kernel, Cmd, done, and_then, ◌>>=◌, ◌>>◌, pure}
use sofie_os.Buffer.Order.{insert_sorted}
use sofie_os.Syscall.{Libc}
use sofie_os.Stack.{sys_set_protected_stack_top, sys_restore_protected_stack_top}
use sofie_os.Stack.Frames.{
  IsCalling, own_range, set-run, protected, closed, frame_entry, restore_lem,
}
use sofie_os.Trap.Defs.{priv_user}
use sofie_os.User.Defs.{Hart, if_user, ecall0}
use sofie_os.User.Stubs.{sofie_set_protected_stack, sofie_restore_protected_stack}
use sofie_os.User.Routines.{close_frame, open_frame}
use sofie_os.User.Calls.{find_syscall_numbers, called_task, called, given, ecall-returns}
use sofie_os.User.Sys

module _ {Dev : Type 0} ⦃metal : Metal Dev⦄ (hart : Hart Dev) (k : Kernel Dev) (i : ℕ) (t : Task)
    (s : Stack) where
  -- The caller at the call that closes the frame, and the state there.
  abbrev pub caller : Task
  caller = called_task hart Sys.set_protected_stack_top (λ f. f) k t

  abbrev pub entry : Kernel Dev
  entry = called hart Sys.set_protected_stack_top (λ f. f) i k t

  module _ (c : IsCalling entry i caller s) where
    abbrev pub framed_task : Task
    framed_task = given 0 (closed entry i caller s c)

    -- The state in which the function's body runs.
    abbrev pub framed : Kernel Dev
    framed = record k {
      call_cnt = add32 k.call_cnt 1;
      mallocs = c.pool;
      buffers = insert_sorted (frame_entry entry i caller s c) k.buffers;
      tasks = set k.tasks i framed_task;
      pmp = c.pmp;
      privileges = priv_user;
    }

module _ {Dev : Type 0} ⦃metal : Metal Dev⦄ (hart : Hart Dev) (k : Kernel Dev) (i : ℕ) (t : Task)
    (s : Stack) (c : IsCalling (entry hart k i t s) i (caller hart k i t s) s) (m : Mem)
    (mid : Task) where
  -- The state behind the body, which has changed memory and the caller alone, and the caller at the call
  -- that opens the frame.
  abbrev pub behind : Kernel Dev
  behind = record (framed hart k i t s c) { mem = m; tasks = set k.tasks i mid }

  abbrev pub leaver : Task
  leaver = called_task hart Sys.restore_protected_stack_top (λ f. f) behind mid

  abbrev pub left_task : Task
  left_task =
      let own = own_range k.buffers leaver s in
      given 0 (record leaver { usp_bottom = own.0; usp_top = own.1 })

  -- The state after the function.
  abbrev pub left : Kernel Dev
  left = record k {
    call_cnt = add32 k.call_cnt 1;
    mallocs = c.pool;
    mem = m;
    pmp = clear_buffer_access leaver.trapframe.sp c.pmp;
    privileges = priv_user;
    tasks = set k.tasks i left_task;
  }

module _ {Dev : Type 0} ⦃metal : Metal Dev⦄ (libc : Libc Dev) (rounds : ℕ) (hart : Hart Dev)
    (k : Kernel Dev) (i : ℕ) (t : Task) (s : Stack)
    (c : IsCalling (entry hart k i t s) i (caller hart k i t s) s) (current : k.current ≡ some i)
    (task : get_elem? k.tasks i ≡ some t) (user : k.privileges ≡ priv_user) where
  close_frame_lem : close_frame libc rounds hart k ≡ done tt (framed hart k i t s c)
  unfolding if_user sofie_set_protected_stack ecall0
  close_frame_lem =
      let before = entry hart k i t s in
      let one = caller hart k i t s in
      let two = closed before i one s c in
      let lt = get_elem?-lt k.tasks i t task in
      let at_entry : get_elem? (set k.tasks i two) i ≡ some two =
        get_elem?-set_self k.tasks i two lt in
      let there : get_elem? (set (set k.tasks i one) i two) i ≡ some two =
        rw (set-set k.tasks i one two) at_entry in
      let numbers = find_syscall_numbers libc rounds in
      let call =
        ecall-returns libc rounds hart Sys.set_protected_stack_top (λ f. f)
          sys_set_protected_stack_top i 0 t two k (protected before i one s c) current task
          numbers.1 (set-run before i one s c) c.current there in
      ground (
        arith,
        user,
        call,
        set-set k.tasks i one two,
        set-set k.tasks i two (given 0 two),
        set-set k.tasks i one (given 0 two),
      )

  module _ (m : Mem) (mid : Task) (same_stacks : mid.stacks ≡ s ∷ c.below)
      (same_sp : (hart.registers (behind hart k i t s c m mid)).sp ≡ (hart.registers k).sp) where
    open_frame_lem :
        open_frame libc rounds hart (behind hart k i t s c m mid)
        ≡ done tt (left hart k i t s c m mid)
    unfolding if_user sofie_restore_protected_stack ecall0
    open_frame_lem =
        let before =
          called hart Sys.restore_protected_stack_top (λ f. f) i (behind hart k i t s c m mid)
            mid in
        let one = leaver hart k i t s c m mid in
        let own = own_range k.buffers one s in
        let two : Task = record one { usp_bottom = own.0; usp_top = own.1 } in
        let lt = get_elem?-lt k.tasks i t task in
        let at_mid : get_elem? (set k.tasks i mid) i ≡ some mid =
          get_elem?-set_self k.tasks i mid lt in
        let at_one : get_elem? (set (set k.tasks i mid) i one) i ≡ some one =
          rw (set-set k.tasks i mid one) (get_elem?-set_self k.tasks i one lt) in
        let e = frame_entry (entry hart k i t s) i (caller hart k i t s) s c in
        let run =
          restore_lem before i one s c.below e k.buffers current at_one same_stacks refl
            (sym same_sp) c.fresh in
        let at_end : get_elem? (set (set (set k.tasks i mid) i one) i two) i ≡ some two =
          rw (set-set k.tasks i mid one, set-set k.tasks i one two)
            (get_elem?-set_self k.tasks i two lt) in
        let numbers = find_syscall_numbers libc rounds in
        let call =
          ecall-returns libc rounds hart Sys.restore_protected_stack_top (λ f. f)
            sys_restore_protected_stack_top i 0 mid two (behind hart k i t s c m mid) _ current
            at_mid numbers.2 run current at_end in
        ground (
          arith,
          call,
          set-set k.tasks i mid one,
          set-set k.tasks i one two,
          set-set k.tasks i two (given 0 two),
          set-set k.tasks i one (given 0 two),
        )

    -- A body in its frame.
    pub framed_body :
        {A : Type 0} (body : Cmd (Kernel Dev) A) (result : A → ℕ) (v : A)
        → body (framed hart k i t s c) ≡ done v (behind hart k i t s c m mid)
        → and_then
            (close_frame libc rounds hart k)
            (λ _. do w ← body; open_frame libc rounds hart; pure (result w))
          ≡ done (result v) (left hart k i t s c m mid)
    framed_body body result v run = rw (close_frame_lem, run, open_frame_lem)
