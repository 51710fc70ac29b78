-- ===== src/Uart/Defs.antt =====
-- The functions of uart.c.
use Prim.Native.Nat.{bit_or}
use sofie_os.Base.{ℕ, ◌/◌, ◌%◌, ◌^◌, Option, none, some, List, [], ◌∷◌, leb, ltb, if◌then◌else◌}
use sofie_os.Word.{sub32}

-- cpu_freq of kernel/src/cpu.c
abbrev pub cpu_freq : ℕ
cpu_freq = 320000000

-- The registers that uart_init sets.
pub record Setup : Type 0 where
  pub iof_sel : ℕ
  pub iof_en : ℕ
  pub txctrl : ℕ
  pub rxctrl : ℕ
  pub div : ℕ

-- From what IOF_EN held. The two control registers are cleared first.
unfoldable pub uart_init : ℕ → ℕ → Setup
uart_init baudrate iof_en = record {
  iof_sel = 0;
  iof_en = bit_or iof_en (bit_or (2 ^ 16) (2 ^ 17));
  txctrl = 1;
  rxctrl = 1;
  div = sub32 (cpu_freq / baudrate) 1;
}

-- `while (UART0_TXDATA > 0xFF) {}`: what is left to read once the transmit register was not full.
unfoldable pub wait_ready : List ℕ → Option (List ℕ)
wait_ready [] = none
wait_ready (status ∷ later) = if ltb 0xff status then wait_ready later else some later

-- The character that it writes, and the reads that are left.
unfoldable pub uart_putchar : ℕ → List ℕ → Option (ℕ × List ℕ)
uart_putchar c reads = elim (wait_ready reads) [
  | none ↦ none
  | some later ↦ some (c % 0x100, later)
]

-- The characters of a string, and those that it writes.
unfoldable pub uart_send : List ℕ → List ℕ → Option (List ℕ × List ℕ)
uart_send [] reads = some ([], reads)
uart_send (c ∷ rest) reads = elim (uart_putchar c reads) [
  | none ↦ none
  | some (sent, later) ↦ elim (uart_send rest later) [
    | none ↦ none
    | some (more, last) ↦ some (sent ∷ more, last)
  ]
]

unfoldable pub uart_getchar : List ℕ → Option (ℕ × List ℕ)
uart_getchar [] = none
uart_getchar (c ∷ later) = if leb c 0xff then some (c, later) else uart_getchar later
