-- ===== src/Umalloc/System.antt =====
-- The user heap under any sequence of calls of allocate_memory and free_memory.
use sofie_os.Base.{ℕ, ◌+◌, ◌-◌, ◌≤◌, ◌<◌, ◌≡◌, ◌≢◌, some, List, [], ◌∷◌, get_elem?, drop_at, All}
use sofie_os.Word.{word_size}
use sofie_os.Memory.{Mem, load32}
use sofie_os.Metal.{Metal}
use sofie_os.Kernel.{FreeListNode, Kernel, done}
use sofie_os.Buffer.Keeps.{IsGuarding}
use sofie_os.Umalloc.Defs.{header_size, round_up, allocate_memory, free_memory}
use sofie_os.Umalloc.FreeList.{IsLaidOut, IsClear}
use sofie_os.Umalloc.Clear.{Apart}

-- The kernel, and the blocks that were handed out and not given back, with their headers.
pub record Heap (Dev : Type 0) : Type 0 where
  pub kernel : Kernel Dev
  pub live : List FreeListNode

-- No two blocks share a byte.
abbrev pub Disjoint : List FreeListNode → Type 0
Disjoint [] = Unit {0}
Disjoint (b ∷ rest) = All (Apart b) rest × Disjoint rest

-- The block's header still holds its length.
abbrev pub HasHeader : Mem → FreeListNode → Type 0
HasHeader m b = load32 m b.address ≡ b.length

-- Between two calls the rest of the system may change anything but the free list and the lengths in the
-- headers of live blocks, as long as it keeps the invariant of the buffers.
pub record SameHeap {Dev : Type 0} ⦃metal : Metal Dev⦄ (s : Heap Dev) (k : Kernel Dev)
    : Type 0 where
  pub same_list : k.free_list ≡ s.kernel.free_list
  pub headers : All (HasHeader k.mem) s.live
  pub guarding : IsGuarding k

-- The block that begins with the header in front of `a`.
abbrev pub block_before : ℕ → ℕ → FreeListNode
block_before a length = record { address = a - header_size; length = length }

pub data Step {Dev : Type 0} ⦃metal : Metal Dev⦄ (s : Heap Dev) : Heap Dev → Type 0 where
  allocates :
      (size a : ℕ) (k k' : Kernel Dev)
      → SameHeap s k
      → header_size ≤ round_up size
      → allocate_memory size k ≡ done a k'
      → a ≢ 0
      → Step s (record { kernel = k'; live = block_before a (round_up size) ∷ s.live })
  refuses :
      (size : ℕ) (k k' : Kernel Dev)
      → SameHeap s k
      → header_size ≤ round_up size
      → allocate_memory size k ≡ done 0 k'
      → Step s (record s { kernel = k' })
  frees :
      (i : ℕ) (b : FreeListNode) (k k' : Kernel Dev)
      → SameHeap s k
      → get_elem? s.live i ≡ some b
      → free_memory (b.address + header_size) k ≡ done tt k'
      → Step s (record { kernel = k'; live = drop_at i s.live })

-- From a heap of which nothing is handed out.
pub data Reach {Dev : Type 0} ⦃metal : Metal Dev⦄ (lo hi : ℕ) : Heap Dev → Type 0 where
  start :
      (k : Kernel Dev)
      → hi < word_size
      → IsLaidOut lo hi k.free_list
      → IsGuarding k
      → Reach lo hi (record { kernel = k; live = [] })
  later : {s t : Heap Dev} → Reach lo hi s → Step s t → Reach lo hi t

-- A live block: it has a header, lies between the bounds, and overlaps no free block.
pub record IsLive (lo hi : ℕ) (l : List FreeListNode) (b : FreeListNode) : Type 0 where
  pub whole : header_size ≤ b.length
  pub above : lo ≤ b.address
  pub below : b.address + b.length ≤ hi
  pub clear : IsClear b l

pub record Inv {Dev : Type 0} ⦃metal : Metal Dev⦄ (lo hi : ℕ) (s : Heap Dev) : Type 0 where
  pub fits : hi < word_size
  pub laid_out : IsLaidOut lo hi s.kernel.free_list
  pub guarding : IsGuarding s.kernel
  pub blocks : All (IsLive lo hi s.kernel.free_list) s.live
  pub headers : All (HasHeader s.kernel.mem) s.live
  pub disjoint : Disjoint s.live
