-- ===== src/Bench/Sort.antt =====
-- sort of BENCH_QSORT in src/main.c.
use sofie_os.Base.{
  ℕ, zero, suc, ◌+◌, ◌-◌, ◌%◌, ◌≤◌, ◌<◌, ◌≡◌, refl, sym, subst, ◌==◌, ltb, if◌then◌else◌, List,
  arith, Bool-cases, inl, inr, tests, ==→eq,
}
use sofie_os.Bench.Defs.{Array, swap, partition, sort, next_rand, later_rands}
use sofie_os.Bench.Shuffle.{
  Shuffled, same, swapped, Shuffled-Between, Shuffled-outside, Shuffled-trans, Shuffled-widen,
}
use native.Mathlib.Nat.{mod-lt}
use sofie_os.Bench.Partition.{Splits, partition-Splits}

-- An array in order from `l` to below `h`, made from another by swaps there.
pub record Sorts (l h : ℕ) (arr brr : Array) : Type 0 where
  pub ordered : (x y : ℕ) → l ≤ x → x ≤ y → y < h → brr x ≤ brr y
  pub shuffled : Shuffled l h arr brr

-- The array before the two calls: the pivot lies at p.
record Pivoted (l p r : ℕ) (arr brr : Array) : Type 0 where
  low : l ≤ p
  high : p ≤ r
  less : (x : ℕ) → l ≤ x → x < p → brr x < brr p
  more : (x : ℕ) → suc p ≤ x → x < suc r → brr p ≤ brr x
  shuffled : Shuffled l (suc r) arr brr

-- The array when the pivot is put at its place.
Pivoted-swap :
    (l r : ℕ) (arr : Array) (end : Array × ℕ)
    → Splits l r arr end
    → Pivoted l end.1 r arr (swap r end.1 end.0)
unfolding swap
Pivoted-swap l r arr end (t, s) = record {
  low = t.low;
  high = t.mid;
  less = λ x a b. ground (arith, t.less x a b, t.mid, t.low);
  more = λ x a b. ground (arith, t.more x, t.more end.1, t.mid, t.low);
  shuffled =
      swapped r end.1 end.0 (omega (arith, t.low, t.mid)) (omega arith) t.low (omega (arith, t.mid))
        s;
}

module _ (l p r : ℕ) (arr brr crr drr : Array) (v : Pivoted l p r arr brr)
    (left : Sorts l p brr crr) (right : Sorts (suc p) (suc r) crr drr) where
  left_kept : (x : ℕ) → x ≤ p → drr x ≡ crr x
  left_kept x h = Shuffled-outside (suc p) (suc r) x crr drr right.shuffled (inl (omega arith))

  pivot_kept : (x : ℕ) → p ≤ x → crr x ≡ brr x
  pivot_kept x h = Shuffled-outside l p x brr crr left.shuffled (inr h)

  up_to_pivot : (x : ℕ) → l ≤ x → x ≤ p → drr x ≤ brr p
  up_to_pivot x a b = elim (Bool-cases (x == p)) [
    | inl here ↦
        subst (λ z. drr z ≤ brr p) {x = p} {y = x} (sym (==→eq x p here))
          (omega (arith, left_kept p (omega arith), pivot_kept p (omega arith)))
    | inr other ↦ omega (
      arith,
      left_kept x b,
      Shuffled-Between (λ z. z < brr p) l p brr crr left.shuffled v.less x a (omega (tests, other)),
    )
  ]

  from_pivot : (x : ℕ) → p ≤ x → x < suc r → brr p ≤ drr x
  from_pivot x a b = elim (Bool-cases (x == p)) [
    | inl here ↦
        subst (λ z. brr p ≤ drr z) {x = p} {y = x} (sym (==→eq x p here))
          (omega (arith, left_kept p (omega arith), pivot_kept p (omega arith)))
    | inr other ↦
        Shuffled-Between (λ z. brr p ≤ z) (suc p) (suc r) crr drr right.shuffled
          (λ y c d. omega (arith, v.more y c d, pivot_kept y (omega arith))) x
          (omega (tests, other)) b
  ]

  -- Sorting the two sides sorts the whole.
  Sorts-join : Sorts l (suc r) arr drr
  Sorts-join = record {
    ordered = λ x y a b c. elim (Bool-cases (ltb y p)) [
      | inl both ↦
          let under : y < p = omega (tests, both) in
          omega (
            arith,
            left.ordered x y a b under,
            left_kept x (omega arith),
            left_kept y (omega arith),
          )
      | inr over ↦
          let above : p ≤ y = omega (tests, over) in
          elim (Bool-cases (ltb p x)) [
            | inl both ↦ right.ordered x y (omega (tests, both)) b c
            | inr under ↦
                omega (arith, up_to_pivot x a (omega (tests, under)), from_pivot y above c)
          ]
    ];
    shuffled =
        Shuffled-trans l (suc r) arr crr drr
          (Shuffled-trans l (suc r) arr brr crr v.shuffled (
            Shuffled-widen l p l (suc r) brr crr (omega arith) (omega (arith, v.high))
              left.shuffled))
          (Shuffled-widen (suc p) (suc r) l (suc r) crr drr (omega (arith, v.low)) (omega arith)
            right.shuffled);
  }

-- At most one entry is in order.
Sorts-short : (l h : ℕ) (arr : Array) → h ≤ suc l → Sorts l h arr arr
Sorts-short l h arr e = record {
  ordered = λ x y a b c. subst (λ z. arr x ≤ arr z) {x = x} {y = y} (omega arith) (omega arith);
  shuffled = same;
}

-- The array before the two calls, and where the pivot lies.
abbrev split_at : ℕ → ℕ → ℕ → Array → Array × ℕ
split_at l r draw arr = partition (r - l) l l r (swap (draw % (r - l + 1) + l) r arr)

split_at-Pivoted :
    (l r draw : ℕ) (arr : Array)
    → l ≤ r
    → let end = split_at l r draw arr in Pivoted l end.1 r arr (swap r end.1 end.0)
split_at-Pivoted l r draw arr e =
    let x = draw % (r - l + 1) + l in
    let within : x < suc r = omega (arith, mod-lt draw {m = r - l + 1} (omega arith)) in
    let v = Pivoted-swap l r (swap x r arr) (split_at l r draw arr) (
      partition-Splits (r - l) l l l r (swap x r arr) (omega arith) (record {
        low = omega arith;
        mid = omega arith;
        less = λ y a b. absurd (omega arith);
        more = λ y a b. absurd (omega arith);
      })) in
    record {
      low = v.low;
      high = v.high;
      less = v.less;
      more = v.more;
      shuffled =
          Shuffled-trans l (suc r) arr (swap x r arr) _
            (swapped x r arr (omega arith) within e (omega arith) same) v.shuffled;
    }

-- The two calls, each where its part is not empty.
abbrev left_part : ℕ → ℕ → ℕ → Array → List ℕ → Array × List ℕ
left_part fuel l p arr rands = if ltb l p then sort fuel l (p - 1) arr rands else (arr, rands)

abbrev right_part : ℕ → ℕ → ℕ → Array × List ℕ → Array × List ℕ
right_part fuel p r half = if ltb p r then sort fuel (p + 1) r half.0 half.1 else half

sort_step :
    (fuel l r : ℕ) (arr : Array) (rands : List ℕ)
    → let end = split_at l r (next_rand rands) arr in
      sort (suc fuel) l r arr rands
      ≡ right_part fuel end.1 r (left_part fuel l end.1 (swap r end.1 end.0) (later_rands rands))
unfolding sort
sort_step fuel l r arr rands = refl

abbrev SortsAll : ℕ → Type 0
SortsAll fuel =
    (l r : ℕ) (arr : Array) (rands : List ℕ)
    → l ≤ r
    → r < l + fuel
    → Sorts l (suc r) arr (sort fuel l r arr rands).0

left_part-Sorts :
    (fuel l p : ℕ) (arr : Array) (rands : List ℕ)
    → SortsAll fuel
    → p < l + suc fuel
    → Sorts l p arr (left_part fuel l p arr rands).0
left_part-Sorts fuel l p arr rands h e = elim (Bool-cases (ltb l p)) [
  | inl some_left ↦
      let under : l < p = omega (tests, some_left) in
      rw some_left (
        subst (λ x. Sorts l x arr (sort fuel l (p - 1) arr rands).0) {x = suc (p - 1)} {y = p}
          (omega arith) (h l (p - 1) arr rands (omega arith) (omega arith)))
  | inr none_left ↦ rw none_left (Sorts-short l p arr (omega (tests, none_left)))
]

right_part-Sorts :
    (fuel p r : ℕ) (half : Array × List ℕ)
    → SortsAll fuel
    → r < suc p + fuel
    → Sorts (suc p) (suc r) half.0 (right_part fuel p r half).0
right_part-Sorts fuel p r half h e = elim (Bool-cases (ltb p r)) [
  | inl some_left ↦
      let under : p < r = omega (tests, some_left) in
      rw some_left (
        subst (λ x. Sorts x (suc r) half.0 (sort fuel (p + 1) r half.0 half.1).0) {x = p + 1}
          {y = suc p} (omega arith) (h (p + 1) r half.0 half.1 (omega arith) (omega arith)))
  | inr none_left ↦ rw none_left (Sorts-short (suc p) (suc r) half.0 (omega (tests, none_left)))
]

-- With fuel for every index from l to r, sort puts the entries from l to r in ascending order, whatever
-- sofie_rand returns: it makes the array by swaps between those indices, so every other entry is as
-- before.
pub sort-Sorts :
    (fuel l r : ℕ) (arr : Array) (rands : List ℕ)
    → l ≤ r
    → r < l + fuel
    → Sorts l (suc r) arr (sort fuel l r arr rands).0
sort-Sorts zero l r arr rands e f = absurd (omega arith)
sort-Sorts (suc fuel) l r arr rands e f =
    let end = split_at l r (next_rand rands) arr in
    let p = end.1 in
    let arr2 = swap r p end.0 in
    let v = split_at-Pivoted l r (next_rand rands) arr e in
    let half = left_part fuel l p arr2 (later_rands rands) in
    subst (λ z. Sorts l (suc r) arr z.0) (sym (sort_step fuel l r arr rands))
      (Sorts-join l p r arr arr2 half.0 (right_part fuel p r half).0 v
        (left_part-Sorts fuel l p arr2 (later_rands rands) (sort-Sorts fuel)
          (omega (arith, v.high)))
        (right_part-Sorts fuel p r half (sort-Sorts fuel) (omega (arith, v.low))))
