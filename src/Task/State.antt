-- ===== src/Task/State.antt =====
-- The macros of kernel/task.h that set a task's state.
use sofie_os.Base.{ℕ, ◌<◌, ◌≡◌, ◌==◌, arith, zero, suc}
use sofie_os.Task.Flags.{
  is_runnable, is_running, is_sleeping, is_zombie, is_just_allocated, set_state, set_just_allocated,
}

-- After SET_STATE(x, y), for one of the four states, the bit of y is set and those of the other
-- three are not; the flag for a stack that was just allocated is as before.
pub set_state_flags :
    (x y : ℕ)
    → y < 4
    → (is_runnable (set_state x y) ≡ (y == 0))
      × (is_running (set_state x y) ≡ (y == 1))
      × (is_sleeping (set_state x y) ≡ (y == 2))
      × (is_zombie (set_state x y) ≡ (y == 3))
      × (is_just_allocated (set_state x y) ≡ is_just_allocated x)
unfolding is_runnable is_running is_sleeping is_zombie is_just_allocated set_state
set_state_flags x zero h = ground arith
set_state_flags x (suc zero) h = ground arith
set_state_flags x (suc (suc zero)) h = ground arith
set_state_flags x (suc (suc (suc zero))) h = ground arith
set_state_flags x (suc (suc (suc (suc y)))) h = absurd (omega arith)

-- SET_USER_STACK_JUST_ALLOCATED(x, y), for y 0 or 1, sets that flag to y and leaves the four states.
pub set_just_allocated_flags :
    (x y : ℕ)
    → y < 2
    → (is_just_allocated (set_just_allocated x y) ≡ (y == 1))
      × (is_runnable (set_just_allocated x y) ≡ is_runnable x)
      × (is_running (set_just_allocated x y) ≡ is_running x)
      × (is_sleeping (set_just_allocated x y) ≡ is_sleeping x)
      × (is_zombie (set_just_allocated x y) ≡ is_zombie x)
unfolding is_runnable is_running is_sleeping is_zombie is_just_allocated set_just_allocated
set_just_allocated_flags x y h = ground arith
