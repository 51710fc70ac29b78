-- ===== src/Stack/Bounds.antt =====
-- The size that task_expand_stack of kernel/src/task.c allocates, and the bytes that the kernel copies
-- down.
use sofie_os.Base.{
  ℕ, zero, suc, ◌+◌, ◌-◌, ◌%◌, ◌^◌, ◌≤◌, ◌<◌, ◌≡◌, ◌⊎◌, ◌∙◌, ◌&&◌, ltb, leb, if◌then◌else◌, arith,
}
use sofie_os.Word.{word_size, add32, sub32_fits}
use sofie_os.Memory.{Mem, store8}
use sofie_os.Task.Create.{user_stack_size}
use sofie_os.Stack.Defs.{new_length, copy_down}

-- For a frame at least 2048 bytes short of 2^32, the size of the new stack is a multiple of 1024, above
-- the frame's and at most 1024 above it.
pub new_length_bounds :
    (frame : ℕ)
    → frame + 2 ^ 11 ≤ word_size
    → (frame < new_length frame)
      × (new_length frame ≤ frame + user_stack_size)
      × (new_length frame % user_stack_size ≡ 0)
unfolding new_length add32
new_length_bounds frame h = ground arith

-- Where neither range runs below the address 0 and the ranges do not overlap, copying downwards makes
-- the `n` bytes that end at the destination those that end at the source, and changes no other byte.
pub copy_down_lem :
    (n src dst : ℕ) (m : Mem)
    → n ≤ src + 1
    → src < word_size
    → n ≤ dst + 1
    → dst < word_size
    → (src + n ≤ dst) ⊎ (dst + n ≤ src)
    → (x : ℕ)
    → copy_down n src dst m x ≡ (if ltb dst (x + n) && leb x dst then m (src - (dst - x)) else m x)
unfolding copy_down
copy_down_lem zero src dst m hs ss hd sd apart x = ground arith
copy_down_lem (suc zero) src dst m hs ss hd sd apart x = unfold store8 in ground arith
copy_down_lem (suc (suc n)) src dst m hs ss hd sd apart x =
    rw (sub32_fits src 1 (omega arith) ss, sub32_fits dst 1 (omega arith) sd)
      (copy_down_lem (suc n) (src - 1) (dst - 1) (store8 m dst (m src)) (omega arith) (omega arith)
          (omega arith) (omega arith) (omega arith) x
        ∙ unfold store8 in ground arith)
