-- ===== src/Umalloc/Live.antt =====
-- Live blocks of the user heap: the invariant of Umalloc.System.
use sofie_os.Base.{ℕ, ◌+◌, ◌≡◌, ap, ◌∙◌, All-get_elem?, arith}
use sofie_os.Word.{sub32_fits, sub32}
use sofie_os.Memory.{load32}
use sofie_os.Metal.{Metal, Lawful}
use sofie_os.Umalloc.Defs.{header_size, release_node}
use sofie_os.Umalloc.Ends.{allocate_memory-Allocates, free_memory-ends}
use sofie_os.Umalloc.System.{Heap, Step, allocates, refuses, frees, Reach, start, later, Inv}
use sofie_os.Umalloc.Kept.{SameHeap-Inv, freed_Inv, allocated_Inv, refused_Inv}

module _ {Dev : Type 0} ⦃metal : Metal Dev⦄ (laws : Lawful metal) (lo hi : ℕ) where
  pub Step-Inv : {s t : Heap Dev} → Step s t → Inv lo hi s → Inv lo hi t
  Step-Inv {s} (allocates size a k k' same big run found) inv =
      allocated_Inv laws lo hi size a s.live k k' big found
        (allocate_memory-Allocates laws size a k k' same.guarding run)
        (SameHeap-Inv laws lo hi s k same inv)
  Step-Inv {s} (refuses size k k' same big run) inv =
      refused_Inv laws lo hi size s.live k k'
        (allocate_memory-Allocates laws size 0 k k' same.guarding run) big
        (SameHeap-Inv laws lo hi s k same inv)
  Step-Inv {s} (frees i b k k' same at run) inv =
      let block = All-get_elem? _ s.live i b inv.blocks at in
      let header = All-get_elem? _ s.live i b same.headers at in
      let (list, mem, g) = free_memory-ends laws (b.address + header_size) k k' same.guarding run in
      let front : sub32 (b.address + header_size) header_size ≡ b.address =
        sub32_fits (b.address + header_size) header_size (omega arith)
          (omega (arith, block.below, block.whole, inv.fits))
        ∙ omega arith in
      let back =
        ap (λ x. release_node (record { address = x; length = load32 k.mem x }) k.free_list) front
        ∙ ap (λ n. release_node (record { address = b.address; length = n }) k.free_list) header in
      freed_Inv laws lo hi i b s.live k k' at (list ∙ back) mem g
        (SameHeap-Inv laws lo hi s k same inv)

  pub Reach-Inv : {s : Heap Dev} → Reach lo hi s → Inv lo hi s
  Reach-Inv (start k fits w g) = record {
    fits = fits;
    laid_out = w;
    guarding = g;
    blocks = tt;
    headers = tt;
    disjoint = tt;
  }
  Reach-Inv (later r st) = Step-Inv st (Reach-Inv r)
