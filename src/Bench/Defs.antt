-- ===== src/Bench/Defs.antt =====
-- The functions of the programs.
use sofie_os.Base.{ℕ, zero, suc, ◌+◌, ◌-◌, ◌*◌, ◌%◌, List, [], ◌∷◌, ◌==◌, ltb, if◌then◌else◌}
use sofie_os.Word.{word_size, add32}

-- BENCH_NUMBER_POWER: `n` rounds of the loop.
unfoldable pub power_loop : ℕ → ℕ → ℕ → ℕ
power_loop zero num res = res
power_loop (suc n) num res = power_loop n num (res * num % word_size)

-- BENCH_FIB_LOOP: c after `n` rounds of the loop.
unfoldable pub fib_loop : ℕ → ℕ → ℕ → ℕ → ℕ
fib_loop zero a b c = c
fib_loop (suc n) a b c = fib_loop n b c (add32 b c)

-- BENCH_FIB_RECURSIVE
unfoldable pub fib : ℕ → ℕ
fib zero = 1
fib (suc zero) = 1
fib (suc (suc n)) = add32 (fib (suc n)) (fib n)

-- The global arr of BENCH_QSORT by index. A short is held as its value plus 2^15.
abbrev pub Array : Type 0
Array = ℕ → ℕ

unfoldable pub swap : ℕ → ℕ → Array → Array
swap i j arr x = if x == i then arr j else (if x == j then arr i else arr x)

-- The loop of sort, for the `n` indices from `i` on: the array and p.
unfoldable pub partition : ℕ → ℕ → ℕ → ℕ → Array → Array × ℕ
partition zero i p r arr = (arr, p)
partition (suc n) i p r arr =
    let (arr', p') = if ltb (arr i) (arr r) then (swap i p arr, p + 1) else (arr, p) in
    partition n (i + 1) p' r arr'

abbrev pub next_rand : List ℕ → ℕ
next_rand [] = 0
next_rand (x ∷ rest) = x

abbrev pub later_rands : List ℕ → List ℕ
later_rands [] = []
later_rands (x ∷ rest) = rest

-- `rands` is what the coming calls of sofie_rand return, and 0 beyond them. `fuel` bounds the
-- depth of the calls.
unfoldable pub sort : ℕ → ℕ → ℕ → Array → List ℕ → Array × List ℕ
sort zero l r arr rands = (arr, rands)
sort (suc fuel) l r arr rands =
    let x = next_rand rands % (r - l + 1) + l in
    let (arr1, p) = partition (r - l) l l r (swap x r arr) in
    let arr2 = swap r p arr1 in
    let left = sort fuel l (p - 1) arr2 (later_rands rands) in
    let (arr3, rands3) = if ltb l p then left else (arr2, later_rands rands) in
    let right = sort fuel (p + 1) r arr3 rands3 in if ltb p r then right else (arr3, rands3)

-- PAGE_SIZE
abbrev pub page_size : ℕ
page_size = 256

-- BENCH_LFS: what the block device does not do.
unfoldable pub block_erase : ℕ → ℕ
block_erase block = 0

unfoldable pub block_sync : ℕ
block_sync = 0
