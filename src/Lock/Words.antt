-- ===== src/Lock/Words.antt =====
-- The two words of a lock: how the writes of lock.c change what is read.
use sofie_os.Base.{ℕ, ◌+◌, ◌<◌, ◌≡◌, arith, inl, inr}
use sofie_os.Word.{word_size}
use sofie_os.Memory.{Mem, load32, store32, load32-store32, load32-store32_apart}

-- The value word and the spinlock word.
abbrev pub value_of : ℕ → Mem → ℕ
value_of lock m = load32 m lock

abbrev pub spin_of : ℕ → Mem → ℕ
spin_of lock m = load32 m (lock + 4)

module _ (lock : ℕ) (m : Mem) (v : ℕ) where
  pub value-write_value : v < word_size → value_of lock (store32 m lock v) ≡ v
  value-write_value h = load32-store32 m lock v h

  pub spin-write_value : spin_of lock (store32 m lock v) ≡ spin_of lock m
  spin-write_value = load32-store32_apart m lock v (lock + 4) (inr (omega arith))

  pub value-write_spin : value_of lock (store32 m (lock + 4) v) ≡ value_of lock m
  value-write_spin = load32-store32_apart m (lock + 4) v lock (inl (omega arith))

  pub spin-write_spin : v < word_size → spin_of lock (store32 m (lock + 4) v) ≡ v
  spin-write_spin h = load32-store32 m (lock + 4) v h
