-- ===== src/Stack/Expand.antt =====
-- task_expand_stack and task_shrink_stack of kernel/src/task.c.
use sofie_os.Base.{
  ℕ, ◌+◌, ◌-◌, ◌^◌, ◌≤◌, ◌<◌, ◌≡◌, ◌≢◌, ◌⊎◌, refl, ap, ◌∙◌, ◌&&◌, ltb, leb, if◌then◌else◌, some,
  List, ◌∷◌, get_elem?, set, arith,
}
use sofie_os.Word.{word_size, add32, sub32, sub32_fits}
use sofie_os.Umalloc.Merge.{add32_fits}
use sofie_os.Metal.{Metal}
use sofie_os.Pmp.{clear_buffer_access}
use sofie_os.Kernel.{Stack, Task, Kernel, done}
use sofie_os.Task.{set_just_allocated}
use sofie_os.Stack.Defs.{
  frame_size, new_length, task_expand_stack, top_stack, copy_bytes, copy_down,
}
use sofie_os.Stack.Bounds.{new_length_bounds, copy_down_lem}

-- A task that runs with its stack pointer below its stack, whose frame begins in the stack, where
-- malloc gives a block for the new stack that lies apart from the old one.
pub record IsOverflowing {Dev : Type 0} (k : Kernel Dev) (i : ℕ) (t : Task) (s : Stack) (n node : ℕ)
    : Type 0 where
  pub current : k.current ≡ some i
  pub task : get_elem? k.tasks i ≡ some t
  pub below : List Stack
  pub stacks : t.stacks ≡ s ∷ below
  pub pool : List ℕ
  pub mallocs : k.mallocs ≡ n ∷ node ∷ pool
  pub got : n ≢ 0
  pub got_node : node ≢ 0
  pub bottom : 0 < s.bottom
  pub sp_below : t.trapframe.sp < s.bottom
  pub fp_inside : s.bottom ≤ t.trapframe.fp
  pub fp_small : t.trapframe.fp + 2 ^ 11 ≤ word_size
  pub room : n + new_length (frame_size t) < word_size
  pub apart : (t.trapframe.fp ≤ n) ⊎ (n + new_length (frame_size t) ≤ s.bottom)

module _ {Dev : Type 0} ⦃metal : Metal Dev⦄ (k : Kernel Dev) (i n node : ℕ) (t : Task) (s : Stack)
    (o : IsOverflowing k i t s n node) where
  -- The new stack, and the task on it.
  abbrev pub new_stack : Stack
  new_stack = record {
    length = new_length (frame_size t);
    fp = t.trapframe.fp;
    sp = t.trapframe.sp;
    extra = 0;
    p_sp = t.usp_top;
    bottom = n;
  }

  abbrev pub moved : Task
  moved =
      let end = add32 n (new_length (frame_size t)) in
      record t {
        trapframe = record t.trapframe { fp = end; sp = sub32 end (frame_size t) };
        stacks = new_stack ∷ t.stacks;
        usp_bottom = n;
        usp_top = end;
        state = set_just_allocated t.state 1;
      }

  abbrev pub expanded : Kernel Dev
  expanded =
      let end = add32 n (new_length (frame_size t)) in
      let src = sub32 t.trapframe.fp 1 in
      record k {
        mallocs = o.pool;
        mem = copy_down (src + 1 - s.bottom) src (sub32 end 1) k.mem;
        tasks = set k.tasks i moved;
        pmp = clear_buffer_access end k.pmp;
      }

  pub expand-run : task_expand_stack k ≡ done tt expanded
  unfolding task_expand_stack top_stack copy_bytes
  expand-run = ground (arith, o.current, o.task, o.stacks, o.mallocs, o.got, o.got_node, o.bottom)

  -- For a task that runs with its stack pointer below its stack and its frame pointer above the bottom,
  -- where malloc gives a block for the new stack that lies apart from the frame, at least 2048 bytes of
  -- the address space lie above the frame pointer, and the block ends below 2^32: task_expand_stack
  -- comes to its end without sleeping. The task then runs on the block that malloc gave, of at least
  -- the frame's size, with its stack pointer in it and as far below its frame pointer as before; the
  -- bytes of its frame that lay in the old stack, from its bottom up, are at the same distance below
  -- the new frame pointer, and no other byte changes; no other task does either.
  pub task_expand_stack-moves :
      let len = new_length (frame_size t) in
      let end = n + len in
      let fp = t.trapframe.fp in
      (k' : Kernel Dev) × (task_expand_stack k ≡ done tt k')
      × (k'.tasks ≡ set k.tasks i moved)
      × (moved.trapframe.fp ≡ end)
      × (moved.trapframe.sp + (fp - t.trapframe.sp) ≡ end)
      × (n < moved.trapframe.sp)
      × ((x : ℕ)
          → k'.mem x ≡ (
              if leb end (x + (fp - s.bottom)) && ltb x end
              then k.mem (fp - (end - x))
              else k.mem x))
  task_expand_stack-moves =
      let len = new_length (frame_size t) in
      let fp = t.trapframe.fp in
      let frame : frame_size t ≡ fp - t.trapframe.sp =
        unfold frame_size in
        sub32_fits fp t.trapframe.sp (omega (arith, o.sp_below, o.fp_inside))
          (omega (arith, o.fp_small)) in
      let (more, less, whole) =
        new_length_bounds (frame_size t) (omega (arith, frame, o.fp_small)) in
      let end : add32 n len ≡ n + len = add32_fits n len o.room in
      let sp : moved.trapframe.sp ≡ n + len - frame_size t =
        ap (λ x. sub32 x (frame_size t)) end
        ∙ sub32_fits (n + len) (frame_size t) (omega (arith, more)) o.room in
      let top : sub32 fp 1 ≡ fp - 1 =
        sub32_fits fp 1 (omega (arith, o.bottom, o.fp_inside)) (omega (arith, o.fp_small)) in
      let last : sub32 (add32 n len) 1 ≡ n + len - 1 =
        ap (λ x. sub32 x 1) end ∙ sub32_fits (n + len) 1 (omega (arith, more)) o.room in
      (
        expanded,
        expand-run,
        refl,
        end,
        omega (arith, sp, frame, more),
        omega (arith, sp, more),
        λ x.
            ap (λ r. copy_down (r + 1 - s.bottom) r (sub32 (add32 n len) 1) k.mem x) top
            ∙ ap (λ r. copy_down (fp - 1 + 1 - s.bottom) (fp - 1) r k.mem x) last
            ∙ copy_down_lem (fp - 1 + 1 - s.bottom) (fp - 1) (n + len - 1) k.mem
                (omega (arith, o.bottom)) (omega (arith, o.fp_small))
                (omega (arith, more, frame, o.sp_below)) (omega (arith, o.room))
                (omega (arith, o.apart, more, frame, o.sp_below, o.fp_inside, o.bottom)) x
            ∙ ground (arith, o.bottom, o.fp_inside, more),
      )
