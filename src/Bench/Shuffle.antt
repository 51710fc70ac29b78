-- ===== src/Bench/Shuffle.antt =====
-- Arrays that differ by swaps, for sort of BENCH_QSORT in src/main.c.
use sofie_os.Base.{ℕ, ◌≤◌, ◌<◌, ◌≡◌, ◌⊎◌, refl, ◌∙◌, false, ◌==◌, arith, Bool-cases, inl, inr}
use sofie_os.Bench.Defs.{Array, swap}

-- The second array is made from the first by swapping entries at indices from `l` to below `h`.
pub data Shuffled (l h : ℕ) (arr : Array) : Array → Type 0 where
  same : Shuffled l h arr arr
  swapped :
      (i j : ℕ) (brr : Array)
      → l ≤ i
      → i < h
      → l ≤ j
      → j < h
      → Shuffled l h arr brr
      → Shuffled l h arr (swap i j brr)

-- What holds of every entry from `l` to below `h`.
abbrev pub Between : (ℕ → Type 0) → ℕ → ℕ → Array → Type 0
Between P l h arr = (x : ℕ) → l ≤ x → x < h → P (arr x)

swap-Between :
    (P : ℕ → Type 0) (l h i j : ℕ) (arr : Array)
    → l ≤ i
    → i < h
    → l ≤ j
    → j < h
    → Between P l h arr
    → Between P l h (swap i j arr)
unfolding swap
swap-Between P l h i j arr li ih lj jh p x lx xh = elim (Bool-cases (x == i)) [
  | inl e ↦ rw e (p j lj jh)
  | inr e ↦
      rw e (elim (Bool-cases (x == j)) [ inl f ↦ rw f (p i li ih) | inr f ↦ rw f (p x lx xh) ])
]

pub swap-outside :
    (i j x : ℕ) (arr : Array) → (x == i) ≡ false → (x == j) ≡ false → swap i j arr x ≡ arr x
unfolding swap
swap-outside i j x arr e f = rw (e, f) refl

pub Shuffled-Between :
    (P : ℕ → Type 0) (l h : ℕ) (arr brr : Array)
    → Shuffled l h arr brr
    → Between P l h arr
    → Between P l h brr
Shuffled-Between P l h arr brr same p = p
Shuffled-Between P l h arr brr (swapped i j crr li ih lj jh s) p =
    swap-Between P l h i j crr li ih lj jh (Shuffled-Between P l h arr crr s p)

pub Shuffled-outside :
    (l h x : ℕ) (arr brr : Array) → Shuffled l h arr brr → (x < l) ⊎ (h ≤ x) → brr x ≡ arr x
Shuffled-outside l h x arr brr same o = refl
Shuffled-outside l h x arr brr (swapped i j crr li ih lj jh s) o =
    swap-outside i j x crr (ground arith) (ground arith) ∙ Shuffled-outside l h x arr crr s o

pub Shuffled-trans :
    (l h : ℕ) (arr brr crr : Array)
    → Shuffled l h arr brr
    → Shuffled l h brr crr
    → Shuffled l h arr crr
Shuffled-trans l h arr brr crr s same = s
Shuffled-trans l h arr brr crr s (swapped i j drr li ih lj jh t) =
    swapped i j drr li ih lj jh (Shuffled-trans l h arr brr drr s t)

pub Shuffled-widen :
    (l h l' h' : ℕ) (arr brr : Array)
    → l' ≤ l
    → h ≤ h'
    → Shuffled l h arr brr
    → Shuffled l' h' arr brr
Shuffled-widen l h l' h' arr brr p q same = same
Shuffled-widen l h l' h' arr brr p q (swapped i j crr li ih lj jh s) =
    swapped i j crr (omega arith) (omega arith) (omega arith) (omega arith)
      (Shuffled-widen l h l' h' arr crr p q s)
