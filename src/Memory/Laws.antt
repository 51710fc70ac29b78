-- ===== src/Memory/Laws.antt =====
-- Words of memory: reading back and reading elsewhere.
use sofie_os.Base.{ℕ, ◌+◌, ◌≤◌, ◌<◌, ◌≡◌, ◌⊎◌, arith}
use sofie_os.Word.{word_size}
use sofie_os.Memory.Defs.{Mem, load32, store32}

pub load32-store32 : (m : Mem) (a v : ℕ) → v < word_size → load32 (store32 m a v) a ≡ v
unfolding load32 store32
load32-store32 m a v h = ground arith

-- A byte outside the four is left alone.
pub store32-apart : (m : Mem) (a v x : ℕ) → (x < a) ⊎ (a + 4 ≤ x) → store32 m a v x ≡ m x
unfolding store32
store32-apart m a v x h = ground arith

pub load32-store32_apart :
    (m : Mem) (a v b : ℕ) → (b + 4 ≤ a) ⊎ (a + 4 ≤ b) → load32 (store32 m a v) b ≡ load32 m b
unfolding load32
load32-store32_apart m a v b h = omega (
  arith,
  store32-apart m a v b (omega arith),
  store32-apart m a v (b + 1) (omega arith),
  store32-apart m a v (b + 2) (omega arith),
  store32-apart m a v (b + 3) (omega arith),
)
