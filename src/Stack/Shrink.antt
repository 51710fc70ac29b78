-- ===== src/Stack/Shrink.antt =====
-- task_shrink_stack of kernel/src/task.c after task_expand_stack.
use sofie_os.Base.{
  ℕ, ◌+◌, ◌≤◌, ◌<◌, ◌≡◌, ◌≢◌, ◌⊎◌, refl, sym, ap, ◌∙◌, true, false, some, List, [], ◌∷◌, get_elem?,
  set, set-set, get_elem?-lt, get_elem?-set_self, All, arith,
}
use sofie_os.Word.{add32, sub32, sub32_fits}
use sofie_os.Umalloc.Merge.{add32_fits}
use sofie_os.Metal.{Metal}
use sofie_os.Kernel.{BufferEntry, Stack, Task, Kernel, done, and_then}
use sofie_os.Task.{set_just_allocated, is_just_allocated}
use sofie_os.Task.State.{set_just_allocated_flags}
use sofie_os.Stack.Defs.{
  frame_size, new_length, task_expand_stack, task_shrink_stack, top_stack, drop_between,
}
use sofie_os.Stack.Expand.{IsOverflowing, moved, new_stack, expanded, expand-run}

-- Where no entry lies in the range, none is dropped.
drop_between-none :
    (lo hi : ℕ) (l : List BufferEntry)
    → All (λ (p : BufferEntry). (p.address < lo) ⊎ (hi ≤ p.address)) l
    → drop_between lo hi l ≡ l
unfolding drop_between
drop_between-none lo hi [] h = refl
drop_between-none lo hi (p ∷ rest) h = ground (arith, drop_between-none lo hi rest h.1, h.0)

module _ {Dev : Type 0} ⦃metal : Metal Dev⦄ where
  -- Shrinking, where the task is known and its PMP range is not empty.
  shrink-run :
      (k : Kernel Dev) (i : ℕ) (t : Task) (top s : Stack) (below : List Stack)
      → k.current ≡ some i
      → get_elem? k.tasks i ≡ some t
      → t.stacks ≡ top ∷ s ∷ below
      → is_just_allocated t.state ≡ true
      → t.usp_top ≢ 0
      → let sp = sub32 top.fp top.extra in
        task_shrink_stack k
        ≡ done tt (record k {
          buffers = drop_between top.bottom (add32 top.bottom top.length) k.buffers;
          tasks = set k.tasks i (record t {
            trapframe = record t.trapframe { sp = sp };
            stacks = s ∷ below;
            state = set_just_allocated t.state 0;
            usp_bottom = s.bottom;
            usp_top = sp;
          });
        })
  unfolding task_shrink_stack top_stack
  shrink-run k i t top s below cur at stacks just ranged =
      let lt = get_elem?-lt k.tasks i t at in
      let sp = sub32 top.fp top.extra in
      let u1 : Task = record t { trapframe = record t.trapframe { sp = sp } } in
      let u2 : Task = record u1 { stacks = s ∷ below } in
      let u3 : Task = record u2 { state = set_just_allocated t.state 0 } in
      let u4 : Task = record u3 { usp_bottom = s.bottom } in
      let u5 : Task = record u4 { usp_top = sp } in
      let there = λ (u : Task). get_elem?-set_self k.tasks i u lt in
      ground (
        arith,
        cur,
        at,
        stacks,
        just,
        ranged,
        there u1,
        there u2,
        there u3,
        there u4,
        there u5,
        set-set k.tasks i u1 u2,
        set-set k.tasks i u2 u3,
        set-set k.tasks i u3 u4,
        set-set k.tasks i u4 u5,
      )

  -- Under the conditions of task_expand_stack-moves, and where no buffer entry lies in the block that
  -- malloc gave: task_shrink_stack after task_expand_stack comes to its end. The task has the stacks
  -- that it had, its stack pointer at the frame pointer that it had, so that its frame is gone, and its
  -- own part of the stack up to there; the mark for a new stack is off, and the buffer entries are as
  -- before.
  pub expand-shrink :
      (k : Kernel Dev) (i n node : ℕ) (t : Task) (s : Stack)
      → IsOverflowing k i t s n node
      → All
          (λ (p : BufferEntry). (p.address < n) ⊎ (n + new_length (frame_size t) ≤ p.address))
          k.buffers
      → (k' : Kernel Dev) × (t' : Task) × (and_then (task_expand_stack k) (λ _. task_shrink_stack)
          ≡ done tt k')
        × (k'.tasks ≡ set k.tasks i t')
        × (t'.stacks ≡ t.stacks)
        × (t'.trapframe.sp ≡ t.trapframe.fp)
        × (t'.usp_bottom ≡ s.bottom)
        × (t'.usp_top ≡ t.trapframe.fp)
        × (is_just_allocated t'.state ≡ false)
        × (k'.buffers ≡ k.buffers)
  expand-shrink k i n node t s o clear =
      let len = new_length (frame_size t) in
      let k1 = expanded k i n node t s o in
      let u = moved k i n node t s o in
      let top = new_stack k i n node t s o in
      let end : add32 n len ≡ n + len = add32_fits n len o.room in
      let flags = set_just_allocated_flags t.state 1 (omega arith) in
      let lt = get_elem?-lt k.tasks i t o.task in
      let run =
        shrink-run k1 i u top s o.below o.current (get_elem?-set_self k.tasks i u lt)
          (ap (λ l. top ∷ l) o.stacks) flags.0 (omega (arith, end, o.got)) in
      let sp : sub32 t.trapframe.fp 0 ≡ t.trapframe.fp =
        sub32_fits t.trapframe.fp 0 (omega arith) (omega (arith, o.fp_small)) ∙ omega arith in
      let back : Task = record u {
        trapframe = record u.trapframe { sp = sub32 t.trapframe.fp 0 };
        stacks = s ∷ o.below;
        state = set_just_allocated u.state 0;
        usp_bottom = s.bottom;
        usp_top = sub32 t.trapframe.fp 0;
      } in
      (
        record k1 { buffers = drop_between n (add32 n len) k.buffers; tasks = set k1.tasks i back },
        back,
        ap (λ r. and_then r (λ _. task_shrink_stack)) (expand-run k i n node t s o) ∙ run,
        set-set k.tasks i u back,
        sym o.stacks,
        sp,
        refl,
        sp,
        (set_just_allocated_flags u.state 0 (omega arith)).0,
        ap (λ h. drop_between n h k.buffers) end ∙ drop_between-none n (n + len) k.buffers clear,
      )
