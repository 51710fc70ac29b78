-- ===== src/Task/Table.antt =====
-- get_tid and get_task_by_id of kernel/src/task.c. `none` is -1, or NULL.
use Prim.Native.Nat.{bit_or}
use sofie_os.Base.{
  ℕ, zero, suc, ◌+◌, ◌-◌, ◌^◌, Option, none, some, List, [], ◌∷◌, ◌==◌, if◌then◌else◌,
}
use sofie_os.Word.{bit_at}
use sofie_os.Kernel.{Task}

abbrev pub max_task_count : ℕ
max_task_count = 16

-- The first loop of get_tid: a bit for each id in use.
unfoldable pub used_tids : ℕ → List Task → ℕ
used_tids used [] = used
used_tids used (t ∷ rest) = used_tids (bit_or used (2 ^ (t.tid - 1))) rest

-- The second loop, for the `n` ids from `i + 1` on.
unfoldable pub first_free : ℕ → ℕ → ℕ → Option ℕ
first_free zero i used = none
first_free (suc n) i used =
    let later = first_free n (i + 1) used in if bit_at i used == 0 then some (i + 1) else later

unfoldable pub get_tid : List Task → Option ℕ
unfolding used_tids first_free bit_at
get_tid tasks = first_free max_task_count 0 (used_tids 0 tasks)

-- The loop of get_task_by_id, which has come to the place `i`.
unfoldable pub find_task : ℕ → ℕ → List Task → Option ℕ
find_task tid i [] = none
find_task tid i (t ∷ rest) = if t.tid == tid then some i else find_task tid (i + 1) rest

unfoldable pub get_task_by_id : ℕ → List Task → Option ℕ
unfolding find_task
get_task_by_id tid tasks = find_task tid 0 tasks
