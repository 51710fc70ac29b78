-- ===== src/Umalloc/Defs.antt =====
-- The functions of kernel/src/umalloc.c. Each loop is a function on the list of free blocks; the
-- tail pointer, which is set and never read, is left out.
use sofie_os.Base.{
  ℕ, zero, suc, ◌+◌, ◌*◌, ◌/◌, Bool, true, false, ◌&&◌, Option, none, some, List, [], ◌∷◌, ◌==◌,
  leb, ltb, if◌then◌else◌,
}
use sofie_os.Word.{add32, sub32}
use sofie_os.Metal.{Metal}
use sofie_os.Kernel.{
  FreeListNode, Kernel, Cmd, panic, ◌>>=◌, ◌>>◌, get, modify, malloc, pure, write_word, read_word,
  current_task,
}
use sofie_os.Buffer.{add_buffer_entry, remove_buffer_entry}

-- sizeof(struct MemoryBlock)
abbrev pub header_size : ℕ
header_size = 8

-- -1 as a uint32_t or an int
abbrev pub minus_one : ℕ
minus_one = 0xffffffff

-- The loop of rearrange_free_list at the node `p`, with what follows it.
unfoldable pub merge_from : FreeListNode → List FreeListNode → List FreeListNode
merge_from p [] = p ∷ []
merge_from p (next ∷ rest) = elim (add32 p.address p.length == next.address) [
  | true ↦ merge_from (record p { length = add32 p.length next.length }) rest
  | false ↦ p ∷ merge_from next rest
]

-- It is called with at least one node.
unfoldable pub rearrange_free_list : List FreeListNode → List FreeListNode
rearrange_free_list [] = []
rearrange_free_list (p ∷ rest) = merge_from p rest

-- delete_free_list_node at the place of the node.
unfoldable pub delete_node : ℕ → List FreeListNode → List FreeListNode
delete_node i [] = []
delete_node zero (p ∷ rest) = rest
delete_node (suc i) (p ∷ rest) = p ∷ delete_node i rest

-- `(size + 3) / 4 * 4`
unfoldable pub round_up : ℕ → ℕ
round_up size = add32 size 3 / 4 * 4

-- `choose == NULL || choose->length > p->length`
abbrev pub better : Option (ℕ × FreeListNode) → FreeListNode → Bool
better none p = true
better (some (i, c)) p = ltb p.length c.length

-- The loop of allocate_memory: the chosen node and its place.
unfoldable pub choose_from :
    ℕ → ℕ → Option (ℕ × FreeListNode) → List FreeListNode → Option (ℕ × FreeListNode)
choose_from size i best [] = best
choose_from size i best (p ∷ rest) =
    choose_from size (i + 1) (if leb size p.length && better best p then some (i, p) else best) rest

unfoldable pub choose : ℕ → List FreeListNode → Option (ℕ × FreeListNode)
unfolding choose_from
choose size l = choose_from size 0 none l

-- The chosen node gives its front away.
unfoldable pub shrink_node : ℕ → ℕ → List FreeListNode → List FreeListNode
shrink_node size i [] = []
shrink_node size zero (p ∷ rest) =
    record { address = add32 p.address size; length = sub32 p.length size } ∷ rest
shrink_node size (suc i) (p ∷ rest) = p ∷ shrink_node size i rest

-- What allocate_memory does to the free list once it has chosen.
unfoldable pub take_block : ℕ → ℕ × FreeListNode → List FreeListNode → List FreeListNode
take_block size (i, chosen) l =
    if chosen.length == size then delete_node i l else shrink_node size i l

-- The loop of free_memory over a list that is not empty: the node goes before the first node above
-- it. Where there is none, it is not linked.
unfoldable pub link_node : FreeListNode → List FreeListNode → List FreeListNode
link_node node [] = []
link_node node (p ∷ rest) =
    if ltb node.address p.address then node ∷ p ∷ rest else p ∷ link_node node rest

-- What free_memory does to the free list.
unfoldable pub release_node : FreeListNode → List FreeListNode → List FreeListNode
release_node node [] = node ∷ []
release_node node (p ∷ rest) = rearrange_free_list (link_node node (p ∷ rest))

module _ {Dev : Type 0} ⦃metal : Metal Dev⦄ where
  unfoldable pub allocate_memory : ℕ → Cmd (Kernel Dev) ℕ
  allocate_memory size = do
    let size = round_up size
    k ← get
    elim (choose size k.free_list) [
      | none ↦ pure 0
      | some (i, chosen) ↦ do
        write_word chosen.address size
        task ← current_task
        write_word (chosen.address + 4) task.tid
        modify (λ s. record s { free_list = take_block size (i, chosen) s.free_list })
        add_buffer_entry (add32 chosen.address header_size) (sub32 size header_size) 0
        pure (add32 chosen.address header_size)
    ]

  unfoldable pub change_owner : ℕ → ℕ → Cmd (Kernel Dev) (Unit {0})
  change_owner buffer_start_address owner =
      write_word (sub32 buffer_start_address header_size + 4) owner

  unfoldable pub free_memory : ℕ → Cmd (Kernel Dev) (Unit {0})
  free_memory address = do
    let block = sub32 address header_size
    node ← malloc
    if node == 0 then panic else do
      len ← read_word block
      remove_buffer_entry address
      modify (λ s. record s {
        free_list = release_node (record { address = block; length = len }) s.free_list;
      })

  unfoldable pub get_owner : ℕ → Cmd (Kernel Dev) ℕ
  get_owner buffer_start_address = do
    k ← get
    let inside =
        leb k.layout.user_begin buffer_start_address && ltb buffer_start_address k.layout.user_end
    if inside then read_word (sub32 buffer_start_address header_size + 4) else pure minus_one

  unfoldable pub has_ownership : ℕ → Cmd (Kernel Dev) Bool
  has_ownership buffer_start_address = do
    owner ← read_word (sub32 buffer_start_address header_size + 4)
    task ← current_task
    pure (owner == task.tid)

  unfoldable pub init_free_list : ℕ → ℕ → Cmd (Kernel Dev) (Unit {0})
  init_free_list address len = do
    node ← malloc
    if node == 0
        then panic
        else modify (λ s. record s { free_list = record { address = address; length = len } ∷ [] })
