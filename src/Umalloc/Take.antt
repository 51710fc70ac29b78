-- ===== src/Umalloc/Take.antt =====
-- The part of allocate_memory in kernel/src/umalloc.c that takes a block off the front of a free one.
use sofie_os.Base.{
  ℕ, zero, suc, ◌+◌, ◌≤◌, ◌<◌, ◌≡◌, some, List, [], ◌∷◌, ◌||◌, true, false, get_elem?, arith, inr,
}
use sofie_os.Word.{sub32_fits, word_size}
use sofie_os.Kernel.{FreeListNode}
use sofie_os.Umalloc.Defs.{choose, delete_node, shrink_node, take_block}
use sofie_os.Umalloc.FreeList.{
  IsLaidOut, IsLaidOut-le, IsLaidOut-lower, IsClear, in_block, is_free, is_free_below, free_bytes,
}
use sofie_os.Umalloc.Choose.{choose_found}
use sofie_os.Umalloc.Merge.{add32_fits}

-- A list laid out below `hi`, which fits in 32 bits, with the node `c` at the place `i`.
module _ (hi size : ℕ) (c : FreeListNode) (fits : hi < word_size) (enough : size ≤ c.length) where
  take_block-IsLaidOut_at :
      (lo i : ℕ) (l : List FreeListNode)
      → IsLaidOut lo hi l
      → get_elem? l i ≡ some c
      → IsLaidOut lo hi (take_block size (i, c) l)
  unfolding take_block delete_node shrink_node
  take_block-IsLaidOut_at lo zero [] w e = cc
  take_block-IsLaidOut_at lo (suc i) [] w e = cc
  take_block-IsLaidOut_at lo zero (p ∷ rest) w e = ground (
    arith,
    IsLaidOut-le (p.address + p.length) hi rest w.1,
    IsLaidOut-lower (p.address + p.length) lo hi rest,
    add32_fits p.address size,
    sub32_fits p.length size,
  )
  take_block-IsLaidOut_at lo (suc i) (p ∷ rest) w e =
      ground (arith, take_block-IsLaidOut_at (p.address + p.length) i rest w.1 e)

  abbrev block : FreeListNode
  block = record { address = c.address; length = size }

  chosen-within :
      (lo i : ℕ) (l : List FreeListNode)
      → IsLaidOut lo hi l
      → get_elem? l i ≡ some c
      → (lo ≤ c.address) × (c.address + c.length ≤ hi)
  chosen-within lo i [] w e = cc
  chosen-within lo zero (p ∷ rest) w e =
      ground (arith, IsLaidOut-le (p.address + p.length) hi rest w.1)
  chosen-within lo (suc i) (p ∷ rest) w e =
      omega (arith, chosen-within (p.address + p.length) i rest w.1 e)

  take_block-is_free_at :
      (lo i x : ℕ) (l : List FreeListNode)
      → IsLaidOut lo hi l
      → get_elem? l i ≡ some c
      → is_free l x ≡ (in_block block x || is_free (take_block size (i, c) l) x)
  unfolding take_block delete_node shrink_node is_free
  take_block-is_free_at lo zero x [] w e = cc
  take_block-is_free_at lo (suc i) x [] w e = cc
  take_block-is_free_at lo zero x (p ∷ rest) w e = ground (
    arith,
    IsLaidOut-le (p.address + p.length) hi rest w.1,
    add32_fits p.address size,
    sub32_fits p.length size,
  )
  take_block-is_free_at lo (suc i) x (p ∷ rest) w e =
      ground (arith, take_block-is_free_at (p.address + p.length) i x rest w.1 e)

  taken_not_free_at :
      (lo i x : ℕ) (l : List FreeListNode)
      → IsLaidOut lo hi l
      → get_elem? l i ≡ some c
      → in_block block x ≡ true
      → is_free (take_block size (i, c) l) x ≡ false
  unfolding take_block delete_node shrink_node is_free in_block
  taken_not_free_at lo zero x [] w e b = cc
  taken_not_free_at lo (suc i) x [] w e b = cc
  taken_not_free_at lo zero x (p ∷ rest) w e b = ground (
    arith,
    IsLaidOut-le (p.address + p.length) hi rest w.1,
    is_free_below (p.address + p.length) hi x rest w.1,
    add32_fits p.address size,
    sub32_fits p.length size,
  )
  taken_not_free_at lo (suc i) x (p ∷ rest) w e b = ground (
    arith,
    chosen-within (p.address + p.length) i rest w.1 e,
    taken_not_free_at (p.address + p.length) i x rest w.1 e b,
  )

  take_block-free_bytes_at :
      (lo i : ℕ) (l : List FreeListNode)
      → IsLaidOut lo hi l
      → get_elem? l i ≡ some c
      → free_bytes (take_block size (i, c) l) + size ≡ free_bytes l
  unfolding take_block delete_node shrink_node free_bytes
  take_block-free_bytes_at lo zero [] w e = cc
  take_block-free_bytes_at lo (suc i) [] w e = cc
  take_block-free_bytes_at lo zero (p ∷ rest) w e =
      ground (arith, IsLaidOut-le (p.address + p.length) hi rest w.1, sub32_fits p.length size)
  take_block-free_bytes_at lo (suc i) (p ∷ rest) w e =
      ground (arith, take_block-free_bytes_at (p.address + p.length) i rest w.1 e)

  IsClear-of_laid_out :
      (lo : ℕ) (l : List FreeListNode) → c.address + size ≤ lo → IsLaidOut lo hi l → IsClear block l
  IsClear-of_laid_out lo [] h w = tt
  IsClear-of_laid_out lo (p ∷ rest) h w =
      (inr (omega arith), IsClear-of_laid_out (p.address + p.length) rest (omega arith) w.1)

  take_block-IsClear_at :
      (lo i : ℕ) (l : List FreeListNode)
      → IsLaidOut lo hi l
      → get_elem? l i ≡ some c
      → IsClear block (take_block size (i, c) l)
  unfolding take_block delete_node shrink_node
  take_block-IsClear_at lo zero [] w e = cc
  take_block-IsClear_at lo (suc i) [] w e = cc
  take_block-IsClear_at lo zero (p ∷ rest) w e = ground (
    arith,
    IsClear-of_laid_out (p.address + p.length) rest (ground arith) w.1,
    IsLaidOut-le (p.address + p.length) hi rest w.1,
    add32_fits p.address size,
    sub32_fits p.length size,
  )
  take_block-IsClear_at lo (suc i) (p ∷ rest) w e = ground (
    arith,
    chosen-within (p.address + p.length) i rest w.1 e,
    take_block-IsClear_at (p.address + p.length) i rest w.1 e,
  )

-- A choice taken off a list laid out between `lo` and `hi`.
module _ (lo hi size i : ℕ) (c : FreeListNode) (l : List FreeListNode) (fits : hi < word_size)
    (w : IsLaidOut lo hi l) (chosen : choose size l ≡ some (i, c)) where
  -- Of a list laid out between bounds that fit in 32 bits, allocate_memory takes the chosen block of `size`
  -- bytes. The list stays laid out, the block lies between the bounds, and exactly the block's
  -- bytes leave the free list: a byte was free before just if it is the block's or free after, none
  -- is both, and the number of free bytes goes down by `size`.
  pub take_block_lem :
      let block : FreeListNode = record { address = c.address; length = size } in
      let l' = take_block size (i, c) l in
      IsLaidOut lo hi l'
      × (lo ≤ c.address)
      × (c.address + size ≤ hi)
      × ((x : ℕ) → is_free l x ≡ (in_block block x || is_free l' x))
      × ((x : ℕ) → in_block block x ≡ true → is_free l' x ≡ false)
      × (free_bytes l' + size ≡ free_bytes l)
  take_block_lem =
      let (at, enough) = choose_found size i c l chosen in
      let within = chosen-within hi size c fits enough lo i l w at in
      (
        take_block-IsLaidOut_at hi size c fits enough lo i l w at,
        within.0,
        omega arith,
        λ x. take_block-is_free_at hi size c fits enough lo i x l w at,
        λ x b. taken_not_free_at hi size c fits enough lo i x l w at b,
        take_block-free_bytes_at hi size c fits enough lo i l w at,
      )

  -- The block overlaps none of what is left.
  pub take_block-IsClear :
      IsClear (record { address = c.address; length = size }) (take_block size (i, c) l)
  take_block-IsClear =
      let (at, enough) = choose_found size i c l chosen in
      take_block-IsClear_at hi size c fits enough lo i l w at
