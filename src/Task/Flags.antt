-- ===== src/Task/Flags.antt =====
-- The bits of a task's state: macros IS_RUNNABLE to SET_USER_STACK_JUST_ALLOCATED of kernel/task.h
-- and enum TaskState. The int is never negative.
use sofie_os.Base.{ℕ, ◌+◌, ◌-◌, ◌*◌, ◌/◌, ◌%◌, ◌^◌, Bool, ◌==◌}

abbrev pub runnable : ℕ
runnable = 0

abbrev pub running : ℕ
running = 1

abbrev pub sleeping : ℕ
sleeping = 2

abbrev pub zombie : ℕ
zombie = 3

-- `(x >> y) & 1`, for a written shift
abbrev pub flag : ℕ → ℕ → Bool
flag x weight = x / weight % 2 == 1

unfoldable pub is_runnable : ℕ → Bool
is_runnable x = flag x 1

unfoldable pub is_running : ℕ → Bool
is_running x = flag x 2

unfoldable pub is_sleeping : ℕ → Bool
is_sleeping x = flag x 4

unfoldable pub is_zombie : ℕ → Bool
is_zombie x = flag x 8

unfoldable pub is_just_allocated : ℕ → Bool
is_just_allocated x = flag x 16

-- `x &= ~((1 << 4) - 1); x |= (1 << y)`, for y below 4
unfoldable pub set_state : ℕ → ℕ → ℕ
set_state x y = x / 16 * 16 + 2 ^ y

-- `x &= ~(1 << 4); x |= (y << 4)`, for y below 2
unfoldable pub set_just_allocated : ℕ → ℕ → ℕ
set_just_allocated x y = x - x / 16 % 2 * 16 + y * 16
