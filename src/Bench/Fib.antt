-- ===== src/Bench/Fib.antt =====
-- The loop of BENCH_FIB_LOOP in src/main.c.
use sofie_os.Base.{ℕ, zero, suc, ◌+◌, ◌≡◌, ap, ◌∙◌, arith}
use sofie_os.Word.{add32}
use sofie_os.Bench.Defs.{fib_loop, fib}

add32_comm : (a b : ℕ) → add32 a b ≡ add32 b a
unfolding add32
add32_comm a b = omega arith

fib_loop_from :
    (n m : ℕ) → fib_loop n (fib m) (fib (suc m)) (fib (suc (suc m))) ≡ fib (n + suc (suc m))
unfolding fib_loop fib
fib_loop_from zero m = let e : suc (suc m) ≡ 0 + suc (suc m) = omega arith in ap fib e
fib_loop_from (suc n) m =
    let e : n + suc (suc (suc m)) ≡ suc n + suc (suc m) = omega arith in
    ap (fib_loop n (fib (suc m)) (fib (suc (suc m)))) (add32_comm (fib (suc m)) (fib (suc (suc m))))
    ∙ fib_loop_from n (suc m)
    ∙ ap fib e

-- The loop of BENCH_FIB_LOOP, from its start and for any number of rounds, computes what the recursion of
-- BENCH_FIB_RECURSIVE does: after n rounds c is fib(n + 2), both in 32 bits.
pub fib_loop-fib : (n : ℕ) → fib_loop n 1 1 2 ≡ fib (n + 2)
unfolding fib add32
fib_loop-fib n = fib_loop_from n 0
