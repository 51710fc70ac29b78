-- ===== src/Umalloc/Clear.antt =====
-- Blocks that overlap no free block, and how the steps of allocate_memory and free_memory in
-- kernel/src/umalloc.c leave them so.
use sofie_os.Base.{ℕ, zero, suc, ◌+◌, ◌≤◌, ◌<◌, ◌≡◌, ◌⊎◌, some, List, [], ◌∷◌, get_elem?, arith}
use sofie_os.Word.{sub32_fits, word_size}
use sofie_os.Kernel.{FreeListNode}
use sofie_os.Umalloc.Defs.{
  merge_from, rearrange_free_list, link_node, release_node, delete_node, shrink_node, take_block,
}
use sofie_os.Umalloc.FreeList.{IsLaidOut, IsLaidOut-le, IsClear}
use sofie_os.Umalloc.Merge.{add32_fits}
use sofie_os.Umalloc.Release.{link_node-IsLaidOut}

-- The two blocks share no byte.
abbrev pub Apart : FreeListNode → FreeListNode → Type 0
Apart b d = (d.address + d.length ≤ b.address) ⊎ (b.address + b.length ≤ d.address)

-- A block that is not empty, beside a list laid out below `hi`, which fits in 32 bits.
module _ (hi : ℕ) (d : FreeListNode) (fits : hi < word_size) (some_bytes : 0 < d.length) where
  merge_from-IsClear :
      (lo : ℕ) (p : FreeListNode) (rest : List FreeListNode)
      → IsLaidOut lo hi (p ∷ rest)
      → IsClear d (p ∷ rest)
      → IsClear d (merge_from p rest)
  unfolding merge_from
  merge_from-IsClear lo p [] w c = c
  merge_from-IsClear lo p (q ∷ rest) w c =
      let bound = IsLaidOut-le (q.address + q.length) hi rest w.1.1 in
      ground (
        arith,
        add32_fits p.address p.length,
        add32_fits p.length q.length,
        merge_from-IsClear lo (record p { length = p.length + q.length }) rest,
        merge_from-IsClear (p.address + p.length) q rest w.1 c.1,
      )

  rearrange-IsClear :
      (lo : ℕ) (l : List FreeListNode)
      → IsLaidOut lo hi l
      → IsClear d l
      → IsClear d (rearrange_free_list l)
  unfolding rearrange_free_list
  rearrange-IsClear lo [] w c = c
  rearrange-IsClear lo (p ∷ rest) w c = merge_from-IsClear lo p rest w c

  pub take_block-IsClear_other :
      (lo i size : ℕ) (c : FreeListNode) (l : List FreeListNode)
      → IsLaidOut lo hi l
      → get_elem? l i ≡ some c
      → size ≤ c.length
      → IsClear d l
      → IsClear d (take_block size (i, c) l)
  unfolding take_block delete_node shrink_node
  take_block-IsClear_other lo zero size c [] w e h x = cc
  take_block-IsClear_other lo (suc i) size c [] w e h x = cc
  take_block-IsClear_other lo zero size c (p ∷ rest) w e h x = ground (
    arith,
    IsLaidOut-le (p.address + p.length) hi rest w.1,
    add32_fits p.address size,
    sub32_fits p.length size,
  )
  take_block-IsClear_other lo (suc i) size c (p ∷ rest) w e h x =
      ground (arith, take_block-IsClear_other (p.address + p.length) i size c rest w.1 e h x.1)

-- What lies in a block of the list is apart from what the list is clear of.
pub Apart-inside :
    (d c : FreeListNode) (i size : ℕ) (l : List FreeListNode)
    → get_elem? l i ≡ some c
    → size ≤ c.length
    → IsClear d l
    → Apart d (record { address = c.address; length = size })
Apart-inside d c i size [] e h x = cc
Apart-inside d c zero size (p ∷ rest) e h x = ground arith
Apart-inside d c (suc i) size (p ∷ rest) e h x = Apart-inside d c i size rest e h x.1

link_node-IsClear :
    (d node : FreeListNode) (l : List FreeListNode)
    → Apart d node
    → IsClear d l
    → IsClear d (link_node node l)
unfolding link_node
link_node-IsClear d node [] a c = c
link_node-IsClear d node (p ∷ rest) a c = ground (arith, link_node-IsClear d node rest a c.1)

pub release_node-IsClear :
    (lo hi : ℕ) (d node : FreeListNode) (l : List FreeListNode)
    → hi < word_size
    → 0 < d.length
    → 0 < node.length
    → lo ≤ node.address
    → node.address + node.length ≤ hi
    → IsLaidOut lo hi l
    → IsClear node l
    → Apart d node
    → IsClear d l
    → IsClear d (release_node node l)
unfolding release_node
release_node-IsClear lo hi d node [] fits some_bytes n above below w clear a c = (a, tt)
release_node-IsClear lo hi d node (p ∷ rest) fits some_bytes n above below w clear a c =
    rearrange-IsClear hi d fits some_bytes lo (link_node node (p ∷ rest))
      (link_node-IsLaidOut hi node n below lo (p ∷ rest) w clear above)
      (link_node-IsClear d node (p ∷ rest) a c)
