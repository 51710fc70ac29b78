-- ===== src/Stack/Protect.antt =====
-- sys_set_protected_stack_top and sys_restore_protected_stack_top.
use sofie_os.Base.{ℕ, Bool, ◌&&◌, ◌==◌, leb, ltb, if◌then◌else◌}
use sofie_os.Word.{add32, sub32}
use sofie_os.Metal.{Metal}
use sofie_os.Kernel.{
  Stack, Task, Kernel, Cmd, panic, ◌>>=◌, ◌>>◌, get, modify, pure, read_word, write_word,
  current_task, update_current,
}
use sofie_os.Buffer.{add_buffer_entry, remove_buffer_entry}
use sofie_os.Task.{set_just_allocated, is_just_allocated}
use sofie_os.Stack.Defs.{top_stack, update_top, copy_bytes, task_expand_stack, first_between}

-- Whether the address lies in the stack, its end left out or let in.
abbrev pub in_stack : Stack → ℕ → Bool
in_stack s a = leb s.bottom a && ltb a (add32 s.bottom s.length)

abbrev pub in_stack_or_end : Stack → ℕ → Bool
in_stack_or_end s a = leb s.bottom a && leb a (add32 s.bottom s.length)

abbrev pub stack_end : Stack → ℕ
stack_end s = add32 s.bottom s.length

-- The frame pointer that the first test of sys_set_protected_stack_top leaves: one that still points
-- into the previous stack while sp is in this one becomes this stack's end.
unfoldable pub anchor_frame : Task → Stack → ℕ
anchor_frame t s =
    if t.trapframe.fp == s.fp && in_stack s t.trapframe.sp then stack_end s else t.trapframe.fp

-- The space that a frame copied to a new stack leaves free below the previous frame's entry.
unfoldable pub extra_space : Stack → ℕ → ℕ → ℕ
extra_space s fp sp =
    if ltb (add32 s.sp (sub32 fp sp)) s.p_sp then sub32 (sub32 s.p_sp s.sp) (sub32 fp sp) else 0

module _ {Dev : Type 0} ⦃metal : Metal Dev⦄ where
  -- The block for a stack that was just allocated.
  unfoldable pub settle_frame : Task → Stack → Cmd (Kernel Dev) (Unit {0})
  settle_frame t s = do
    let fp = t.trapframe.fp
    let sp = t.trapframe.sp
    let extra = extra_space s fp sp
    if fp == stack_end s then update_top (λ z. record z { extra = extra }) else do
      write_word (sub32 fp 8) s.fp
      let moved_fp = sub32 s.fp (sub32 (sub32 (stack_end s) fp) extra)
      update_top (λ z. record z { fp = moved_fp })
      last ← copy_bytes (sub32 (add32 fp extra) 1) (sub32 (stack_end s) 1) sp
      let new_fp = sub32 (stack_end s) extra
      update_current
          (λ u. record u { trapframe = record u.trapframe { sp = add32 last 1; fp = new_fp } })
      (if extra == 0 then pure tt else add_buffer_entry new_fp extra t.tid)
      previous ← read_word (sub32 new_fp 8)
      add_buffer_entry moved_fp (sub32 (sub32 previous 8) moved_fp) t.tid

  unfoldable pub sys_set_protected_stack_top : Cmd (Kernel Dev) ℕ
  sys_set_protected_stack_top = do
    modify (λ k. record k { call_cnt = add32 k.call_cnt 1 })
    t ← current_task
    s ← top_stack t
    update_current (λ u. record u { trapframe = record u.trapframe { fp = anchor_frame t s } })
    t ← current_task
    (if is_just_allocated t.state
        then (do
          settle_frame t s
          update_current (λ u. record u { state = set_just_allocated u.state 0 }))
        else pure tt)
    t ← current_task
    s ← top_stack t
    (if ltb t.trapframe.sp s.bottom
        then (if s.fp == 0 && t.trapframe.fp == stack_end s then panic else (do
          task_expand_stack
          update_current (λ u. record u { state = set_just_allocated u.state 0 })))
        else pure tt)
    t ← current_task
    s ← top_stack t
    let sp = t.trapframe.sp
    let fp = t.trapframe.fp
    update_current (λ u. record u { usp_bottom = s.bottom; usp_top = sp })
    add_buffer_entry sp (sub32 (sub32 fp sp) 8) t.tid
    pure 0

  -- The new usp_bottom and usp_top, from the first entry in the stack or 0.
  unfoldable pub sys_restore_protected_stack_top : Cmd (Kernel Dev) ℕ
  sys_restore_protected_stack_top = do
    t ← current_task
    s ← top_stack t
    remove_buffer_entry t.trapframe.sp
    k ← get
    let found = first_between s.bottom (stack_end s) k.buffers
    let fp = t.trapframe.fp
    let otherwise = if in_stack_or_end s fp then stack_end s else fp
    let lastfp = if found == 0 then otherwise else found
    (if ltb s.bottom fp && in_stack_or_end s lastfp
        then update_current (λ u. record u { usp_bottom = s.bottom; usp_top = lastfp })
        else update_current (λ u. record u { usp_bottom = 0; usp_top = 0 }))
    pure 0
