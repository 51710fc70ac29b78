-- ===== src/Bench/Partition.antt =====
-- The loop of sort of BENCH_QSORT in src/main.c.
use sofie_os.Base.{
  ℕ, zero, suc, ◌+◌, ◌≤◌, ◌<◌, ◌≡◌, sym, subst, true, false, ltb, arith, Bool-cases, inl, inr,
  tests,
}
use sofie_os.Bench.Defs.{Array, swap, partition}
use sofie_os.Bench.Shuffle.{Shuffled, same, swapped, Shuffled-trans}

-- The state of the loop: what lies before p is less than the pivot, what lies from p to before i is not.
pub record Parted (l i p r : ℕ) (arr : Array) : Type 0 where
  pub low : l ≤ p
  pub mid : p ≤ i
  pub less : (x : ℕ) → l ≤ x → x < p → arr x < arr r
  pub more : (x : ℕ) → p ≤ x → x < i → arr r ≤ arr x

-- A round in which the entry goes before p.
Parted-swap :
    (l i p r : ℕ) (arr : Array)
    → Parted l i p r arr
    → i < r
    → arr i < arr r
    → Parted l (i + 1) (p + 1) r (swap i p arr)
unfolding swap
Parted-swap l i p r arr t below small =
    let low = t.low in
    let mid = t.mid in
    record {
      low = omega (arith, low);
      mid = omega (arith, mid);
      less = λ x a b. ground (arith, t.less x a, low, mid, small, below);
      more = λ x a b. ground (arith, t.more x, t.more p, low, mid, small, below);
    }

partition-swap :
    (n i p r : ℕ) (arr : Array)
    → ltb (arr i) (arr r) ≡ true
    → partition (suc n) i p r arr ≡ partition n (i + 1) (p + 1) r (swap i p arr)
unfolding partition
partition-swap n i p r arr e = ground arith

partition_skip :
    (n i p r : ℕ) (arr : Array)
    → ltb (arr i) (arr r) ≡ false
    → partition (suc n) i p r arr ≡ partition n (i + 1) p r arr
unfolding partition
partition_skip n i p r arr e = ground arith

-- What the loop comes to: every entry is on its side of p.
abbrev pub Splits : ℕ → ℕ → Array → Array × ℕ → Type 0
Splits l r arr end = Parted l r end.1 r end.0 × Shuffled l (suc r) arr end.0

pub partition-Splits :
    (n i p l r : ℕ) (arr : Array)
    → i + n ≡ r
    → Parted l i p r arr
    → Splits l r arr (partition n i p r arr)
unfolding partition
partition-Splits zero i p l r arr e t = (subst (λ x. Parted l x p r arr) (omega arith) t, same)
partition-Splits (suc n) i p l r arr e t = elim (Bool-cases (ltb (arr i) (arr r))) [
  | inl small ↦
      let (t', s) =
        partition-Splits n (i + 1) (p + 1) l r (swap i p arr) (omega arith)
          (Parted-swap l i p r arr t (omega arith) (omega (tests, small))) in
      subst (Splits l r arr) (sym (partition-swap n i p r arr small)) (
        t',
        Shuffled-trans l (suc r) arr (swap i p arr) _
            (swapped i p arr (omega (arith, t.low, t.mid)) (omega arith) t.low
              (omega (arith, t.mid)) same)
            s,
      )
  | inr big ↦
      let at_least : arr r ≤ arr i = omega (tests, big) in
      subst (Splits l r arr) (sym (partition_skip n i p r arr big)) (
        partition-Splits n (i + 1) p l r arr (omega arith) (record {
          low = t.low;
          mid = omega (arith, t.mid);
          less = t.less;
          more = λ x a b. ground (arith, at_least, t.more x a);
        }))
]
