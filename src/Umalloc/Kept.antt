-- ===== src/Umalloc/Kept.antt =====
-- What each call leaves of the invariant of Umalloc.System.
use sofie_os.Base.{
  ℕ, zero, suc, ◌+◌, ◌-◌, ◌≤◌, ◌<◌, ◌≡◌, ◌≢◌, refl, sym, ap, subst, ◌∙◌, some, List, [], ◌∷◌,
  get_elem?, drop_at, All, All-mono, All-get_elem?, All-drop_at, All-both, some-injective, inl, inr,
  arith,
}
use sofie_os.Word.{word_size}
use sofie_os.Memory.{load32, store32, load32-store32, load32-store32_apart}
use sofie_os.Metal.{Metal, Lawful}
use sofie_os.Kernel.{FreeListNode, Kernel}
use sofie_os.Buffer.Keeps.{IsGuarding}
use sofie_os.Umalloc.Defs.{header_size, round_up, choose, take_block, release_node}
use sofie_os.Umalloc.FreeList.{IsLaidOut, IsClear}
use sofie_os.Umalloc.Merge.{add32_fits}
use sofie_os.Umalloc.Choose.{choose_found}
use sofie_os.Umalloc.Take.{take_block_lem, take_block-IsClear}
use sofie_os.Umalloc.Release.{release_node_lem}
use sofie_os.Umalloc.Clear.{Apart, Apart-inside, take_block-IsClear_other, release_node-IsClear}
use sofie_os.Umalloc.Calls.{round_up-lt}
use sofie_os.Umalloc.Ends.{Allocates, refused, served}
use sofie_os.Umalloc.System.{Heap, Disjoint, HasHeader, SameHeap, block_before, IsLive, Inv}

Apart-flip : (b d : FreeListNode) → Apart b d → Apart d b
Apart-flip b d (inl h) = inr h
Apart-flip b d (inr h) = inl h

-- The block at a place is apart from the others, which are still disjoint.
Disjoint-drop_at :
    (i : ℕ) (b : FreeListNode) (l : List FreeListNode)
    → Disjoint l
    → get_elem? l i ≡ some b
    → All (Apart b) (drop_at i l) × Disjoint (drop_at i l)
Disjoint-drop_at i b [] d e = cc
Disjoint-drop_at zero b (p ∷ rest) d e = ground arith
Disjoint-drop_at (suc i) b (p ∷ rest) d e =
    let (apart, disjoint) = Disjoint-drop_at i b rest d.1 e in
    (
      (Apart-flip p b (All-get_elem? (Apart p) rest i b d.0 e), apart),
      (All-drop_at (Apart p) i rest d.0, disjoint),
    )

pub Disjoint-Apart :
    (i j : ℕ) (b d : FreeListNode) (l : List FreeListNode)
    → Disjoint l
    → get_elem? l i ≡ some b
    → get_elem? l j ≡ some d
    → i ≢ j
    → Apart b d
Disjoint-Apart i j b d [] h at at' ne = cc
Disjoint-Apart zero zero b d (p ∷ rest) h at at' ne = absurd (ne refl)
Disjoint-Apart zero (suc j) b d (p ∷ rest) h at at' ne =
    subst (λ z. Apart z d) (some-injective at) (All-get_elem? (Apart p) rest j d h.0 at')
Disjoint-Apart (suc i) zero b d (p ∷ rest) h at at' ne =
    subst (λ z. Apart b z) (some-injective at')
      (Apart-flip p b (All-get_elem? (Apart p) rest i b h.0 at))
Disjoint-Apart (suc i) (suc j) b d (p ∷ rest) h at at' ne =
    Disjoint-Apart i j b d rest h.1 at at' (λ e. ne (ap suc e))

module _ {Dev : Type 0} ⦃metal : Metal Dev⦄ (laws : Lawful metal) (lo hi : ℕ) where
  -- What the rest of the system does keeps the invariant.
  pub SameHeap-Inv :
      (s : Heap Dev) (k : Kernel Dev)
      → SameHeap s k
      → Inv lo hi s
      → Inv lo hi (record s { kernel = k })
  SameHeap-Inv s k same inv = record {
    fits = inv.fits;
    laid_out = subst (IsLaidOut lo hi) (sym same.same_list) inv.laid_out;
    guarding = same.guarding;
    blocks = subst (λ l. All (IsLive lo hi l) s.live) (sym same.same_list) inv.blocks;
    headers = same.headers;
    disjoint = inv.disjoint;
  }

  module _ (n i tid : ℕ) (c : FreeListNode) (k k' : Kernel Dev) (big : header_size ≤ n)
      (small : n < word_size) (chosen : choose n k.free_list ≡ some (i, c))
      (list : k'.free_list ≡ take_block n (i, c) k.free_list)
      (mem : k'.mem ≡ store32 (store32 k.mem c.address n) (c.address + 4) tid) where
    abbrev new_block : FreeListNode
    new_block = record { address = c.address; length = n }

    served_other :
        (d : FreeListNode)
        → hi < word_size
        → IsLaidOut lo hi k.free_list
        → IsLive lo hi k.free_list d × HasHeader k.mem d
        → IsLive lo hi k'.free_list d × HasHeader k'.mem d × Apart new_block d
    served_other d fits w (live, header) =
        let (at, enough) = choose_found n i c k.free_list chosen in
        let apart : Apart d new_block = Apart-inside d c i n k.free_list at enough live.clear in
        let mem1 = store32 k.mem c.address n in
        (
          record {
            whole = live.whole;
            above = live.above;
            below = live.below;
            clear = subst (IsClear d) (sym list) (
                take_block-IsClear_other hi d fits (omega (arith, live.whole)) lo i n c k.free_list
                  w at enough live.clear);
          },
          ap (λ m. load32 m d.address) mem
              ∙ load32-store32_apart mem1 (c.address + 4) tid d.address (ground (arith, live.whole))
              ∙ load32-store32_apart k.mem c.address n d.address (ground (arith, live.whole))
              ∙ header,
          Apart-flip d new_block apart,
        )

    served_Inv :
        (live : List FreeListNode)
        → IsGuarding k'
        → Inv lo hi (record { kernel = k; live = live })
        → Inv lo hi (record { kernel = k'; live = new_block ∷ live })
    served_Inv live g inv =
        let (w, low, high, split, apart, total) =
          take_block_lem lo hi n i c k.free_list inv.fits inv.laid_out chosen in
        let others =
          All-mono _ (λ d. IsLive lo hi k'.free_list d × HasHeader k'.mem d × Apart new_block d)
            (λ d h. served_other d inv.fits inv.laid_out h) live
            (All-both _ _ live inv.blocks inv.headers) in
        record {
          fits = inv.fits;
          laid_out = subst (IsLaidOut lo hi) (sym list) w;
          guarding = g;
          blocks = (
            record {
              whole = big;
              above = low;
              below = high;
              clear =
                  subst (IsClear new_block) (sym list)
                    (take_block-IsClear lo hi n i c k.free_list inv.fits inv.laid_out chosen);
            },
            All-mono _ _ (λ d h. h.0) live others,
          );
          headers = (
            ap (λ m. load32 m c.address) mem
                ∙ load32-store32_apart (store32 k.mem c.address n) (c.address + 4) tid c.address
                    (omega arith)
                ∙ load32-store32 k.mem c.address n small,
            All-mono _ _ (λ d h. h.1) live others,
          );
          disjoint = (All-mono _ _ (λ d h. h.2) live others, inv.disjoint);
        }

  freed_other :
      (b d : FreeListNode) (k k' : Kernel Dev)
      → hi < word_size
      → IsLaidOut lo hi k.free_list
      → IsLive lo hi k.free_list b
      → k'.free_list ≡ release_node b k.free_list
      → IsLive lo hi k.free_list d × Apart b d
      → IsLive lo hi k'.free_list d
  freed_other b d k k' fits w block list (live, apart) = record {
    whole = live.whole;
    above = live.above;
    below = live.below;
    clear = subst (IsClear d) (sym list) (
        release_node-IsClear lo hi d b k.free_list fits (omega (arith, live.whole))
          (omega (arith, block.whole)) block.above block.below w block.clear (Apart-flip b d apart)
          live.clear);
  }

  pub freed_Inv :
      (i : ℕ) (b : FreeListNode) (live : List FreeListNode) (k k' : Kernel Dev)
      → get_elem? live i ≡ some b
      → k'.free_list ≡ release_node b k.free_list
      → k'.mem ≡ k.mem
      → IsGuarding k'
      → Inv lo hi (record { kernel = k; live = live })
      → Inv lo hi (record { kernel = k'; live = drop_at i live })
  freed_Inv i b live k k' at list mem g inv =
      let block = All-get_elem? _ live i b inv.blocks at in
      let (apart, disjoint) = Disjoint-drop_at i b live inv.disjoint at in
      let (w, joined, bytes) =
        release_node_lem lo hi b inv.fits (omega (arith, block.whole)) block.above block.below
          k.free_list inv.laid_out block.clear in
      record {
        fits = inv.fits;
        laid_out = subst (IsLaidOut lo hi) (sym list) w;
        guarding = g;
        blocks =
            All-mono _ _ (λ d h. freed_other b d k k' inv.fits inv.laid_out block list h)
              (drop_at i live)
              (All-both _ _ (drop_at i live) (All-drop_at _ i live inv.blocks) apart);
        headers =
            subst (λ m. All (HasHeader m) (drop_at i live)) (sym mem)
              (All-drop_at _ i live inv.headers);
        disjoint = disjoint;
      }

  pub allocated_Inv :
      (size a : ℕ) (live : List FreeListNode) (k k' : Kernel Dev)
      → header_size ≤ round_up size
      → a ≢ 0
      → Allocates size k a k'
      → Inv lo hi (record { kernel = k; live = live })
      → Inv lo hi (record { kernel = k'; live = block_before a (round_up size) ∷ live })
  allocated_Inv size a live k k' big found (refused none_fits null same) inv = absurd (found null)
  allocated_Inv size a live k k' big found (served i tid c chosen at list mem g) inv =
      let (enough, low) = choose_found (round_up size) i c k.free_list chosen in
      let (w, above, below, split, apart, total) =
        take_block_lem lo hi (round_up size) i c k.free_list inv.fits inv.laid_out chosen in
      let here : a - header_size ≡ c.address =
        omega (arith, at, add32_fits c.address header_size (omega (arith, inv.fits))) in
      subst
        (λ x.
          Inv lo hi
            (record { kernel = k'; live = record { address = x; length = round_up size } ∷ live }))
        (sym here)
        (served_Inv (round_up size) i tid c k k' big (round_up-lt size) chosen list mem live g inv)

  pub refused_Inv :
      (size : ℕ) (live : List FreeListNode) (k k' : Kernel Dev)
      → Allocates size k 0 k'
      → header_size ≤ round_up size
      → Inv lo hi (record { kernel = k; live = live })
      → Inv lo hi (record { kernel = k'; live = live })
  refused_Inv size live k k' (refused none_fits null same) big inv =
      subst (λ z. Inv lo hi (record { kernel = z; live = live })) (sym same) inv
  refused_Inv size live k k' (served i tid c chosen at list mem g) big inv =
      let (w, above, below, split, apart, total) =
        take_block_lem lo hi (round_up size) i c k.free_list inv.fits inv.laid_out chosen in
      absurd (omega (arith, at, add32_fits c.address header_size (omega (arith, inv.fits))))
