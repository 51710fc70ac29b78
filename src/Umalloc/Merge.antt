-- ===== src/Umalloc/Merge.antt =====
-- rearrange_free_list of kernel/src/umalloc.c.
use sofie_os.Base.{ℕ, ◌+◌, ◌<◌, ◌≡◌, refl, List, [], ◌∷◌, arith}
use sofie_os.Word.{word_size, add32}
use sofie_os.Kernel.{FreeListNode}
use sofie_os.Umalloc.Defs.{merge_from, rearrange_free_list}
use sofie_os.Umalloc.FreeList.{
  IsLaidOut, IsLaidOut-le, IsSeparated, IsCoalesced, is_free, free_bytes,
}

pub add32_fits : (a b : ℕ) → a + b < word_size → add32 a b ≡ a + b
unfolding add32
add32_fits a b h = omega arith

-- `p` and `rest` are laid out below `hi`, which fits in 32 bits.
module _ (hi : ℕ) (fits : hi < word_size) where
  merge_from-IsLaidOut :
      (lo : ℕ) (p : FreeListNode) (rest : List FreeListNode)
      → IsLaidOut lo hi (p ∷ rest)
      → IsLaidOut lo hi (merge_from p rest)
  unfolding merge_from
  merge_from-IsLaidOut lo p [] w = w
  merge_from-IsLaidOut lo p (q ∷ rest) w =
      let bound = IsLaidOut-le (q.address + q.length) hi rest w.1.1 in
      ground (
        arith,
        add32_fits p.address p.length,
        add32_fits p.length q.length,
        merge_from-IsLaidOut lo (record p { length = add32 p.length q.length }) rest,
        merge_from-IsLaidOut (p.address + p.length) q rest w.1,
      )

  merge_from-IsSeparated :
      (lo e : ℕ) (p : FreeListNode) (rest : List FreeListNode)
      → IsLaidOut lo hi (p ∷ rest)
      → e < p.address
      → IsSeparated e (merge_from p rest)
  unfolding merge_from
  merge_from-IsSeparated lo e p [] w h = (h, tt)
  merge_from-IsSeparated lo e p (q ∷ rest) w h =
      let bound = IsLaidOut-le (q.address + q.length) hi rest w.1.1 in
      ground (
        arith,
        add32_fits p.address p.length,
        add32_fits p.length q.length,
        merge_from-IsSeparated lo e (record p { length = add32 p.length q.length }) rest,
        merge_from-IsSeparated (p.address + p.length) (p.address + p.length) q rest w.1,
      )

  merge_from-IsCoalesced :
      (lo : ℕ) (p : FreeListNode) (rest : List FreeListNode)
      → IsLaidOut lo hi (p ∷ rest)
      → IsCoalesced (merge_from p rest)
  unfolding merge_from
  merge_from-IsCoalesced lo p [] w = tt
  merge_from-IsCoalesced lo p (q ∷ rest) w =
      let bound = IsLaidOut-le (q.address + q.length) hi rest w.1.1 in
      ground (
        arith,
        add32_fits p.address p.length,
        add32_fits p.length q.length,
        merge_from-IsCoalesced lo (record p { length = add32 p.length q.length }) rest,
        merge_from-IsSeparated (p.address + p.length) (p.address + p.length) q rest w.1,
      )

  merge_from-is_free :
      (lo x : ℕ) (p : FreeListNode) (rest : List FreeListNode)
      → IsLaidOut lo hi (p ∷ rest)
      → is_free (merge_from p rest) x ≡ is_free (p ∷ rest) x
  unfolding merge_from is_free
  merge_from-is_free lo x p [] w = refl
  merge_from-is_free lo x p (q ∷ rest) w =
      let bound = IsLaidOut-le (q.address + q.length) hi rest w.1.1 in
      ground (
        arith,
        add32_fits p.address p.length,
        add32_fits p.length q.length,
        merge_from-is_free lo x (record p { length = add32 p.length q.length }) rest,
        merge_from-is_free (p.address + p.length) x q rest w.1,
      )

  merge_from-free_bytes :
      (lo : ℕ) (p : FreeListNode) (rest : List FreeListNode)
      → IsLaidOut lo hi (p ∷ rest)
      → free_bytes (merge_from p rest) ≡ free_bytes (p ∷ rest)
  unfolding merge_from free_bytes
  merge_from-free_bytes lo p [] w = refl
  merge_from-free_bytes lo p (q ∷ rest) w =
      let bound = IsLaidOut-le (q.address + q.length) hi rest w.1.1 in
      ground (
        arith,
        add32_fits p.address p.length,
        add32_fits p.length q.length,
        merge_from-free_bytes lo (record p { length = add32 p.length q.length }) rest,
        merge_from-free_bytes (p.address + p.length) q rest w.1,
      )

  pub rearrange-IsLaidOut :
      (lo : ℕ) (l : List FreeListNode) → IsLaidOut lo hi l → IsLaidOut lo hi (rearrange_free_list l)
  unfolding rearrange_free_list
  rearrange-IsLaidOut lo [] w = w
  rearrange-IsLaidOut lo (p ∷ rest) w = merge_from-IsLaidOut lo p rest w

  pub rearrange-IsCoalesced :
      (lo : ℕ) (l : List FreeListNode) → IsLaidOut lo hi l → IsCoalesced (rearrange_free_list l)
  unfolding rearrange_free_list
  rearrange-IsCoalesced lo [] w = tt
  rearrange-IsCoalesced lo (p ∷ rest) w = merge_from-IsCoalesced lo p rest w

  pub rearrange-is_free :
      (lo x : ℕ) (l : List FreeListNode)
      → IsLaidOut lo hi l
      → is_free (rearrange_free_list l) x ≡ is_free l x
  unfolding rearrange_free_list
  rearrange-is_free lo x [] w = refl
  rearrange-is_free lo x (p ∷ rest) w = merge_from-is_free lo x p rest w

  pub rearrange-free_bytes :
      (lo : ℕ) (l : List FreeListNode)
      → IsLaidOut lo hi l
      → free_bytes (rearrange_free_list l) ≡ free_bytes l
  unfolding rearrange_free_list
  rearrange-free_bytes lo [] w = refl
  rearrange-free_bytes lo (p ∷ rest) w = merge_from-free_bytes lo p rest w
