-- ===== src/Bench/Tests.antt =====
-- Runs of the programs of src/main.c.
use sofie_os.Base.{◌-◌, ◌≡◌, refl, [], ◌∷◌, arith}
use sofie_os.Bench.{power_loop, swap, partition, sort}
use sofie_os.Bench.Defs.{Array}
use sofie_os.Bench.Sort.{Sorts, sort-Sorts}

power_loop_test : power_loop 33 2 1 ≡ 0
unfolding power_loop
power_loop_test = refl

-- Three entries that descend.
abbrev descending : Array
descending x = 9 - x

sort_test : (sort 3 0 2 descending (1 ∷ 0 ∷ [])).0 0 ≡ 7
unfolding sort partition swap
sort_test = refl

sort-Sorts_example : Sorts 0 3 descending (sort 3 0 2 descending (1 ∷ 0 ∷ [])).0
sort-Sorts_example = sort-Sorts 3 0 2 descending (1 ∷ 0 ∷ []) (omega arith) (omega arith)
