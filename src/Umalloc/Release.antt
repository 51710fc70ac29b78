-- ===== src/Umalloc/Release.antt =====
-- The part of free_memory in kernel/src/umalloc.c that gives a block back to the free list.
use sofie_os.Base.{
  ℕ, ◌+◌, ◌≤◌, ◌<◌, ◌≡◌, ◌≢◌, ◌∙◌, refl, List, [], ◌∷◌, ◌&&◌, ◌||◌, Bool, true, false, ltb, All,
  arith,
}
use sofie_os.Word.{word_size}
use sofie_os.Kernel.{FreeListNode}
use sofie_os.Umalloc.Defs.{link_node, release_node}
use sofie_os.Umalloc.FreeList.{IsLaidOut, IsClear, IsCoalesced, in_block, is_free}
use sofie_os.Umalloc.Merge.{rearrange-IsLaidOut, rearrange-IsCoalesced, rearrange-is_free}

-- Whether a block of the list begins above `a`.
unfoldable pub has_above : ℕ → List FreeListNode → Bool
has_above a [] = false
has_above a (p ∷ rest) = ltb a p.address || has_above a rest

-- Whether free_memory links a node at `a`.
unfoldable pub links : ℕ → List FreeListNode → Bool
unfolding has_above
links a [] = true
links a (p ∷ rest) = has_above a (p ∷ rest)

module _ (hi : ℕ) (node : FreeListNode) (some_bytes : 0 < node.length)
    (below : node.address + node.length ≤ hi) where
  pub link_node-IsLaidOut :
      (lo : ℕ) (l : List FreeListNode)
      → IsLaidOut lo hi l
      → IsClear node l
      → lo ≤ node.address
      → IsLaidOut lo hi (link_node node l)
  unfolding link_node
  link_node-IsLaidOut lo [] w c h = w
  link_node-IsLaidOut lo (p ∷ rest) w c h =
      ground (arith, link_node-IsLaidOut (p.address + p.length) rest w.1 c.1)

  link_node-is_free :
      (x : ℕ) (l : List FreeListNode)
      → is_free (link_node node l) x ≡ (has_above node.address l && in_block node x || is_free l x)
  unfolding link_node is_free has_above
  link_node-is_free x [] = refl
  link_node-is_free x (p ∷ rest) = ground (arith, link_node-is_free x rest)

-- `hi` fits in 32 bits, and the block lies between the bounds.
module _ (lo hi : ℕ) (node : FreeListNode) (fits : hi < word_size) (some_bytes : 0 < node.length)
    (above : lo ≤ node.address) (below : node.address + node.length ≤ hi) where
  -- For a list laid out between the bounds and a block that is not empty, lies between them and overlaps
  -- none of the list: the list that
  -- free_memory leaves is laid out between the same bounds, and no two of its blocks touch. A byte
  -- is free afterwards just if it was free before, or is one of the block's and the block was linked,
  -- which it is if the list was empty or some free block begins above it.
  pub release_node_lem :
      (l : List FreeListNode)
      → IsLaidOut lo hi l
      → IsClear node l
      → IsLaidOut lo hi (release_node node l)
        × IsCoalesced (release_node node l)
        × ((x : ℕ)
            → is_free (release_node node l) x
              ≡ (links node.address l && in_block node x || is_free l x))
  unfolding release_node links
  release_node_lem [] w clear = ((above, below), tt, λ x. unfold is_free in ground arith)
  release_node_lem (p ∷ rest) w clear =
      let linked = link_node node (p ∷ rest) in
      let w' = link_node-IsLaidOut hi node some_bytes below lo (p ∷ rest) w clear above in
      (
        rearrange-IsLaidOut hi fits lo linked w',
        rearrange-IsCoalesced hi fits lo linked w',
        λ x.
            rearrange-is_free hi fits lo x linked w'
            ∙ link_node-is_free hi node some_bytes below x (p ∷ rest),
      )

has_above_highest :
    (a : ℕ) (l : List FreeListNode)
    → All (λ (p : FreeListNode). p.address ≤ a) l
    → has_above a l ≡ false
unfolding has_above
has_above_highest a [] h = refl
has_above_highest a (p ∷ rest) h = ground (arith, has_above_highest a rest h.1)

pub not-free_of_clear :
    (node : FreeListNode) (x : ℕ) (l : List FreeListNode)
    → IsClear node l
    → in_block node x ≡ true
    → is_free l x ≡ false
unfolding is_free in_block
not-free_of_clear node x [] c b = refl
not-free_of_clear node x (p ∷ rest) c b = ground (arith, not-free_of_clear node x rest c.1 b)

-- A block above every other is not linked, if there is another.
pub not_linked :
    (a : ℕ) (l : List FreeListNode)
    → l ≢ []
    → All (λ (p : FreeListNode). p.address ≤ a) l
    → links a l ≡ false
unfolding links
not_linked a [] n h = absurd (n refl)
not_linked a (p ∷ rest) n h = has_above_highest a (p ∷ rest) h
