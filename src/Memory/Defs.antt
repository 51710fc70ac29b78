-- ===== src/Memory/Defs.antt =====
-- A memory maps an address to the byte there.
use sofie_os.Base.{ℕ, ◌+◌, ◌*◌, ◌/◌, ◌%◌, ◌==◌, if◌then◌else◌}

abbrev pub Mem : Type 0
Mem = ℕ → ℕ

unfoldable pub store8 : Mem → ℕ → ℕ → Mem
store8 m a b x = if x == a then b else m x

unfoldable pub load32 : Mem → ℕ → ℕ
load32 m a = m a + m (a + 1) * 0x100 + m (a + 2) * 0x10000 + m (a + 3) * 0x1000000

unfoldable pub store32 : Mem → ℕ → ℕ → Mem
store32 m a v x =
    if x == a
    then v % 0x100
    else (if x == a + 1
        then v / 0x100 % 0x100
        else (if x == a + 2
            then v / 0x10000 % 0x100
            else (if x == a + 3 then v / 0x1000000 % 0x100 else m x)))
