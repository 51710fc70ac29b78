-- ===== src/Umalloc/Ends.antt =====
-- The calls of allocate_memory and free_memory in kernel/src/umalloc.c that come to an end, taken apart.
use sofie_os.Base.{
  ℕ, ◌+◌, ◌≡◌, ◌≢◌, sym, ap, subst, ◌∙◌, some, none, List, List-cases, [], ◌∷◌, get_elem?,
  Option-cases, inl, inr, arith,
}
use sofie_os.Word.{add32-lt, add32, sub32}
use sofie_os.Memory.{load32, store32}
use sofie_os.Metal.{Metal, Lawful}
use sofie_os.Kernel.{FreeListNode, Task, Kernel, done, done-value, done-state, and_then-done}
use sofie_os.Buffer.{add_buffer_entry, remove_buffer_entry}
use sofie_os.Buffer.Calls.{remove_buffer_entry-entries}
use sofie_os.Buffer.Keeps.{
  IsGuarding, OnlyBuffers, add_buffer_entry-IsGuarding, remove_buffer_entry-IsGuarding,
}
use sofie_os.Umalloc.Defs.{
  header_size, round_up, choose, take_block, allocate_memory, free_memory, release_node,
}

-- Nothing was allocated, or a block with its header was.
pub data Allocates {Dev : Type 0} ⦃metal : Metal Dev⦄ (size : ℕ) (k : Kernel Dev) (a : ℕ)
    (k' : Kernel Dev) : Type 0 where
  refused : choose (round_up size) k.free_list ≡ none → a ≡ 0 → k' ≡ k → Allocates size k a k'
  served :
      (i tid : ℕ) (c : FreeListNode)
      → choose (round_up size) k.free_list ≡ some (i, c)
      → a ≡ add32 c.address header_size
      → k'.free_list ≡ take_block (round_up size) (i, c) k.free_list
      → k'.mem ≡ store32 (store32 k.mem c.address (round_up size)) (c.address + 4) tid
      → IsGuarding k'
      → Allocates size k a k'

module _ {Dev : Type 0} ⦃metal : Metal Dev⦄ (laws : Lawful metal) where
  -- The state before the block's buffer is added.
  abbrev carved : ℕ → ℕ → FreeListNode → Task → Kernel Dev → Kernel Dev
  carved n i c t k = record k {
    mem = store32 (store32 k.mem c.address n) (c.address + 4) t.tid;
    free_list = take_block n (i, c) k.free_list;
  }

  allocate_memory_idle :
      (size i a : ℕ) (c : FreeListNode) (k k' : Kernel Dev)
      → choose (round_up size) k.free_list ≡ some (i, c)
      → k.current ≡ none
      → allocate_memory size k ≢ done a k'
  unfolding allocate_memory
  allocate_memory_idle size i a c k k' e idle run = ground arith

  allocate_memory_wild :
      (size i a j : ℕ) (c : FreeListNode) (k k' : Kernel Dev)
      → choose (round_up size) k.free_list ≡ some (i, c)
      → k.current ≡ some j
      → get_elem? k.tasks j ≡ none
      → allocate_memory size k ≢ done a k'
  unfolding allocate_memory
  allocate_memory_wild size i a j c k k' e cur wild run = ground arith

  allocate_memory_last :
      (size i a j : ℕ) (c : FreeListNode) (t : Task) (k k' : Kernel Dev)
      → choose (round_up size) k.free_list ≡ some (i, c)
      → k.current ≡ some j
      → get_elem? k.tasks j ≡ some t
      → allocate_memory size k ≡ done a k'
      → let n = round_up size in
        (k2 : Kernel Dev) × (add_buffer_entry
            (add32 c.address header_size)
            (sub32 n header_size)
            0
            (carved n i c t k)
          ≡ done tt k2)
        × (done (add32 c.address header_size) k2 ≡ done a k')
  unfolding allocate_memory
  allocate_memory_last size i a j c t k k' e cur at run =
      let n = round_up size in
      let (u, k2, added, rest) =
        and_then-done
          (add_buffer_entry (add32 c.address header_size) (sub32 n header_size) 0
            (carved n i c t k))
          (λ _. done (add32 c.address header_size)) a k' (ground arith) in
      (k2, added, rest)

  refused_run :
      (size : ℕ) (k : Kernel Dev)
      → choose (round_up size) k.free_list ≡ none
      → allocate_memory size k ≡ done 0 k
  unfolding allocate_memory
  refused_run size k e = ground arith

  served_from :
      (size i a j : ℕ) (c : FreeListNode) (t : Task) (k k' k2 : Kernel Dev)
      → choose (round_up size) k.free_list ≡ some (i, c)
      → done (add32 c.address header_size) k2 ≡ done a k'
      → IsGuarding k2
      → OnlyBuffers (carved (round_up size) i c t k) k2
      → Allocates size k a k'
  served_from size i a j c t k k' k2 e rest g only =
      let same = done-state _ a k2 k' rest in
      served i t.tid c e (sym (done-value _ a k2 k' rest)) (ap (λ z. z.free_list) (sym same ∙ only))
        (ap (λ z. z.mem) (sym same ∙ only)) (subst (λ z. IsGuarding z) same g)

  -- Every call of allocate_memory that comes to an end.
  pub allocate_memory-Allocates :
      (size a : ℕ) (k k' : Kernel Dev)
      → IsGuarding k
      → allocate_memory size k ≡ done a k'
      → Allocates size k a k'
  allocate_memory-Allocates size a k k' g run =
      elim (Option-cases (choose (round_up size) k.free_list)) [
        | inl e ↦
            let stop = refused_run size k e in
            refused e (sym (done-value 0 a k k' (sym stop ∙ run)))
              (sym (done-state 0 a k k' (sym stop ∙ run)))
        | inr ((i, c), e) ↦ elim (Option-cases k.current) [
          | inl idle ↦ absurd (allocate_memory_idle size i a c k k' e idle run)
          | inr (j, cur) ↦ elim (Option-cases (get_elem? k.tasks j)) [
            | inl wild ↦ absurd (allocate_memory_wild size i a j c k k' e cur wild run)
            | inr (t, at) ↦
                let (k2, added, rest) = allocate_memory_last size i a j c t k k' e cur at run in
                let carved_g : IsGuarding (carved (round_up size) i c t k) = record {
                  sorted = g.sorted;
                  ready = g.ready;
                  in_turn = g.in_turn;
                } in
                let (g2, only) =
                  add_buffer_entry-IsGuarding laws (add32 c.address header_size)
                    (sub32 (round_up size) header_size) 0 (carved (round_up size) i c t k) k2
                    (add32-lt c.address header_size) carved_g added in
                served_from size i a j c t k k' k2 e rest g2 only
          ]
        ]
      ]

  free_memory_starved :
      (address : ℕ) (k k' : Kernel Dev) → k.mallocs ≡ [] → free_memory address k ≢ done tt k'
  unfolding free_memory
  free_memory_starved address k k' e run = ground arith

  free_memory_freed :
      (address m : ℕ) (rest : List ℕ) (k k' k2 : Kernel Dev)
      → k.mallocs ≡ m ∷ rest
      → remove_buffer_entry address (record k { mallocs = rest }) ≡ done tt k2
      → free_memory address k ≡ done tt k'
      → let block = sub32 address header_size in
        free_memory address k
        ≡ done tt (record k2 {
          free_list =
              release_node (record { address = block; length = load32 k.mem block }) k2.free_list;
        })
  unfolding free_memory
  free_memory_freed address m rest k k' k2 e removed run = ground arith

  -- Every call of free_memory that comes to an end: the block that its header describes goes back to
  -- the free list, memory is as before, and the invariant of the buffers is kept.
  pub free_memory-ends :
      (address : ℕ) (k k' : Kernel Dev)
      → IsGuarding k
      → free_memory address k ≡ done tt k'
      → let block = sub32 address header_size in
        (k'.free_list
          ≡ release_node (record { address = block; length = load32 k.mem block }) k.free_list)
        × (k'.mem ≡ k.mem)
        × IsGuarding k'
  free_memory-ends address k k' g run = elim (List-cases k.mallocs) [
    | inl empty ↦ absurd (free_memory_starved address k k' empty run)
    | inr (m, rest, e) ↦
        let k1 : Kernel Dev = record k { mallocs = rest } in
        let block = sub32 address header_size in
        let node : FreeListNode = record { address = block; length = load32 k.mem block } in
        let (k2, removed, sorted, entries, same) =
          remove_buffer_entry-entries address k1 g.sorted in
        let (g2, only) =
          remove_buffer_entry-IsGuarding laws address k1 k2
            (record { sorted = g.sorted; ready = g.ready; in_turn = g.in_turn }) removed in
        let k3 : Kernel Dev = record k2 { free_list = release_node node k2.free_list } in
        let last : k3 ≡ k' =
          done-state tt tt k3 k'
            (sym (free_memory_freed address m rest k k' k2 e removed run) ∙ run) in
        (
          sym (ap (λ z. z.free_list) last)
              ∙ ap (λ (z : Kernel Dev). release_node node z.free_list) only,
          sym (ap (λ z. z.mem) last) ∙ ap (λ (z : Kernel Dev). z.mem) only,
          subst (λ z. IsGuarding z) last
              (record { sorted = g2.sorted; ready = g2.ready; in_turn = g2.in_turn }),
        )
  ]
