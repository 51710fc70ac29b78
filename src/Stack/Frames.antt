-- ===== src/Stack/Frames.antt =====
-- sys_set_protected_stack_top and sys_restore_protected_stack_top of kernel/src/callimpl.c, one after
-- the other.
use sofie_os.Base.{
  ℕ, ◌≤◌, ◌≡◌, ◌≢◌, ap, true, false, ◌==◌, ◌&&◌, ltb, if◌then◌else◌, some, List, [], ◌∷◌, get_elem?,
  set, set-set, get_elem?-lt, get_elem?-set_self, arith,
}
use sofie_os.Word.{add32, sub32}
use sofie_os.Metal.{Metal}
use sofie_os.Pmp.{Pmp, enable_buffer_access, clear_buffer_access}
use sofie_os.Kernel.{BufferEntry, Stack, Task, Kernel, done}
use sofie_os.Buffer.{add_buffer_entry, remove_buffer_entry, has_address}
use sofie_os.Buffer.Order.{IsSorted, insert_sorted, insert_entry_lem, remove_first-insert_sorted}
use sofie_os.Buffer.Calls.{new_entry}
use sofie_os.Task.{is_just_allocated}
use sofie_os.Stack.Defs.{top_stack, first_between}
use sofie_os.Stack.Protect.{
  stack_end, in_stack_or_end, anchor_frame, sys_set_protected_stack_top,
  sys_restore_protected_stack_top,
}

-- A function on a stack that is not new protects its frame: sp and fp lie where they belong, its
-- frame has no entry yet, and malloc and the PMP can serve it.
pub record IsCalling {Dev : Type 0} ⦃metal : Metal Dev⦄ (k : Kernel Dev) (i : ℕ) (t : Task)
    (s : Stack) : Type 0 where
  pub current : k.current ≡ some i
  pub task : get_elem? k.tasks i ≡ some t
  pub below : List Stack
  pub stacks : t.stacks ≡ s ∷ below
  pub settled : is_just_allocated t.state ≡ false
  pub anchored : anchor_frame t s ≡ t.trapframe.fp
  pub sp_inside : s.bottom ≤ t.trapframe.sp
  pub node : ℕ
  pub pool : List ℕ
  pub mallocs : k.mallocs ≡ node ∷ pool
  pub got : node ≢ 0
  pub sorted : IsSorted k.buffers
  pub fresh : has_address t.trapframe.sp k.buffers ≡ false
  pub pmp : Pmp Dev
  pub opens :
      enable_buffer_access t.trapframe.sp
        (add32 t.trapframe.sp (sub32 (sub32 t.trapframe.fp t.trapframe.sp) 8))
        0
        k.pmp
      ≡ some pmp

has_address-insert_sorted :
    (e : BufferEntry) (l : List BufferEntry) → has_address e.address (insert_sorted e l) ≡ true
unfolding has_address insert_sorted
has_address-insert_sorted e [] = ground arith
has_address-insert_sorted e (p ∷ rest) = ground (arith, has_address-insert_sorted e rest)

-- The part of its stack that is a task's own: from the stack's bottom up to the lowest closed frame, or
-- to the stack's end if none is closed; and none, where the frame pointer lies elsewhere.
abbrev pub own_range : List BufferEntry → Task → Stack → ℕ × ℕ
own_range buffers t s =
    let found = first_between s.bottom (stack_end s) buffers in
    let fp = t.trapframe.fp in
    let otherwise = if in_stack_or_end s fp then stack_end s else fp in
    let lastfp = if found == 0 then otherwise else found in
    if ltb s.bottom fp && in_stack_or_end s lastfp then (s.bottom, lastfp) else (0, 0)

-- A function whose frame has an entry opens it again, on whatever stack.
pub restore_lem :
    {Dev : Type 0} ⦃metal : Metal Dev⦄ (k : Kernel Dev) (i : ℕ) (t : Task) (s : Stack)
    (below : List Stack) (e : BufferEntry) (rest : List BufferEntry)
    → k.current ≡ some i
    → get_elem? k.tasks i ≡ some t
    → t.stacks ≡ s ∷ below
    → k.buffers ≡ insert_sorted e rest
    → e.address ≡ t.trapframe.sp
    → has_address e.address rest ≡ false
    → sys_restore_protected_stack_top k
      ≡ done 0 (record k {
        buffers = rest;
        pmp = clear_buffer_access t.trapframe.sp k.pmp;
        tasks =
            set k.tasks i
              (record t { usp_bottom = (own_range rest t s).0; usp_top = (own_range rest t s).1 });
      })
unfolding sys_restore_protected_stack_top top_stack remove_buffer_entry
restore_lem k i t s below e rest current task stacks entries frame fresh = ground (
  arith,
  current,
  task,
  stacks,
  entries,
  frame,
  has_address-insert_sorted e rest,
  remove_first-insert_sorted e rest fresh,
)

module _ {Dev : Type 0} ⦃metal : Metal Dev⦄ (k : Kernel Dev) (i : ℕ) (t : Task) (s : Stack)
    (c : IsCalling k i t s) where
  -- The entry for the frame, and the task and the state with it.
  abbrev pub frame_entry : BufferEntry
  frame_entry = new_entry t.trapframe.sp (sub32 (sub32 t.trapframe.fp t.trapframe.sp) 8) t.tid

  abbrev pub closed : Task
  closed = record t { usp_bottom = s.bottom; usp_top = t.trapframe.sp }

  abbrev pub protected : Kernel Dev
  protected = record k {
    call_cnt = add32 k.call_cnt 1;
    mallocs = c.pool;
    buffers = insert_sorted frame_entry k.buffers;
    tasks = set k.tasks i closed;
    pmp = c.pmp;
  }

  pub set-run : sys_set_protected_stack_top k ≡ done 0 protected
  unfolding sys_set_protected_stack_top top_stack add_buffer_entry
  set-run =
      let u : Task = record t { trapframe = record t.trapframe { fp = anchor_frame t s } } in
      let same : u ≡ t =
        ap (λ f. record t { trapframe = record t.trapframe { fp = f } }) c.anchored in
      let lt = get_elem?-lt k.tasks i t c.task in
      ground (
        arith,
        c.current,
        c.task,
        c.stacks,
        c.settled,
        same,
        c.sp_inside,
        c.mallocs,
        c.got,
        c.opens,
        c.fresh,
        get_elem?-set_self k.tasks i t lt,
        set-set k.tasks i t closed,
        insert_entry_lem frame_entry k.buffers c.sorted,
      )
