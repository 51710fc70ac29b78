-- ===== src/Bytes/Defs.antt =====
-- The loops of memcpy and umemset.
use sofie_os.Base.{ℕ, zero, suc, ◌%◌}
use sofie_os.Word.{add32}
use sofie_os.Memory.{Mem, store8}

-- `n` bytes from `src` go to `dst`, the lowest first.
unfoldable pub copy_up : ℕ → ℕ → ℕ → Mem → Mem
copy_up zero dst src m = m
copy_up (suc n) dst src m = copy_up n (add32 dst 1) (add32 src 1) (store8 m dst (m src))

-- `n` bytes from `dst` on become the low byte of `val`.
unfoldable pub fill : ℕ → ℕ → ℕ → Mem → Mem
fill zero dst val m = m
fill (suc n) dst val m = fill n (add32 dst 1) val (store8 m dst (val % 0x100))
