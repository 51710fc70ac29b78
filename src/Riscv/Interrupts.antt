-- ===== src/Riscv/Interrupts.antt =====
-- The functions of kernel/riscv.h that switch the interrupts.
use sofie_os.Base.{ℕ, ◌≡◌, ◌==◌, if◌then◌else◌, arith}
use sofie_os.Word.{bit_at, bit_at-bit_or, bit_at-pow, bit_at-le, bit_at-clear_bit}
use sofie_os.Riscv.{Registers, intr_on, intr_off}

-- intr_on sets and intr_off clears bit 3 of mstatus, and every other bit is as before.
pub intr_bits :
    (h : Registers) (i : ℕ)
    → (bit_at i (intr_on h).mstatus ≡ (if i == 3 then 1 else bit_at i h.mstatus))
      × (bit_at i (intr_off h).mstatus ≡ (if i == 3 then 0 else bit_at i h.mstatus))
unfolding intr_on intr_off
intr_bits h i = (
  ground (arith, bit_at-bit_or i h.mstatus 8, bit_at-pow i 3, bit_at-le i h.mstatus),
  bit_at-clear_bit 3 i h.mstatus,
)
