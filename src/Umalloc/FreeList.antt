-- ===== src/Umalloc/FreeList.antt =====
-- What a well-formed free list of kernel/src/umalloc.c is, and the set of bytes that it holds.
use sofie_os.Base.{
  All, ◌⊎◌, ℕ, ◌+◌, ◌≤◌, ◌<◌, ◌≡◌, Bool, false, ◌&&◌, ◌||◌, refl, List, [], ◌∷◌, leb, ltb, arith,
}
use sofie_os.Kernel.{FreeListNode}

-- From `lo` to `hi` the blocks lie one behind the other, without overlap.
abbrev pub IsLaidOut : ℕ → ℕ → List FreeListNode → Type 0
IsLaidOut lo hi [] = lo ≤ hi
IsLaidOut lo hi (p ∷ rest) = (lo ≤ p.address) × IsLaidOut (p.address + p.length) hi rest

-- A gap before each block, counted from `e`.
abbrev pub IsSeparated : ℕ → List FreeListNode → Type 0
IsSeparated e [] = Unit {0}
IsSeparated e (p ∷ rest) = (e < p.address) × IsSeparated (p.address + p.length) rest

-- No block ends where the next begins.
abbrev pub IsCoalesced : List FreeListNode → Type 0
IsCoalesced [] = Unit {0}
IsCoalesced (p ∷ rest) = IsSeparated (p.address + p.length) rest

unfoldable pub in_block : FreeListNode → ℕ → Bool
in_block p x = leb p.address x && ltb x (p.address + p.length)

-- Whether the byte at `x` is free.
unfoldable pub is_free : List FreeListNode → ℕ → Bool
unfolding in_block
is_free [] x = false
is_free (p ∷ rest) x = in_block p x || is_free rest x

-- The number of free bytes.
unfoldable pub free_bytes : List FreeListNode → ℕ
free_bytes [] = 0
free_bytes (p ∷ rest) = p.length + free_bytes rest

pub IsLaidOut-lower :
    (lo lo' hi : ℕ) (l : List FreeListNode) → lo' ≤ lo → IsLaidOut lo hi l → IsLaidOut lo' hi l
IsLaidOut-lower lo lo' hi [] h w = omega arith
IsLaidOut-lower lo lo' hi (p ∷ rest) h w = (omega arith, w.1)

pub IsLaidOut-le : (lo hi : ℕ) (l : List FreeListNode) → IsLaidOut lo hi l → lo ≤ hi
IsLaidOut-le lo hi [] w = w
IsLaidOut-le lo hi (p ∷ rest) w = omega (arith, IsLaidOut-le (p.address + p.length) hi rest w.1)

pub is_free_below :
    (lo hi x : ℕ) (l : List FreeListNode) → IsLaidOut lo hi l → x < lo → is_free l x ≡ false
unfolding is_free
is_free_below lo hi x [] w h = refl
is_free_below lo hi x (p ∷ rest) w h =
    ground (arith, is_free_below (p.address + p.length) hi x rest w.1)

pub free_bytes-le : (lo hi : ℕ) (l : List FreeListNode) → IsLaidOut lo hi l → lo + free_bytes l ≤ hi
unfolding free_bytes
free_bytes-le lo hi [] w = omega arith
free_bytes-le lo hi (p ∷ rest) w = omega (arith, free_bytes-le (p.address + p.length) hi rest w.1)

-- The block overlaps none of the list.
abbrev pub IsClear : FreeListNode → List FreeListNode → Type 0
IsClear node l =
    All
      (λ (p : FreeListNode).
        (p.address + p.length ≤ node.address) ⊎ (node.address + node.length ≤ p.address))
      l
