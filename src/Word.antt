-- ===== src/Word.antt =====
-- uint32_t arithmetic of the kernel's C code, and the bits of an int used as a set of flags.
mod Bits
unfoldable pub use Bits.{bit_at, clear_bit}
pub use Bits.{bit_at-bit_or, bit_at-pow, bit_at-zero, bit_at-le, bit_at-clear_bit}
use sofie_os.Base.{ℕ, ◌+◌, ◌-◌, ◌*◌, ◌/◌, ◌%◌, ◌^◌, ◌<◌, ◌≤◌, ◌≡◌, arith}

abbrev pub word_size : ℕ
word_size = 2 ^ 32

unfoldable pub u32 : ℕ → ℕ
u32 a = a % word_size

unfoldable pub add32 : ℕ → ℕ → ℕ
add32 a b = (a + b) % word_size

-- The subtrahend is below 2^32.
unfoldable pub sub32 : ℕ → ℕ → ℕ
sub32 a b = (a + word_size - b) % word_size

-- x >> 2 and x << 2, by which the PMP address registers hold a byte address.
unfoldable pub shr2 : ℕ → ℕ
shr2 a = a / 4

unfoldable pub shl2 : ℕ → ℕ
shl2 a = a * 4 % word_size

pub add32-lt : (a b : ℕ) → add32 a b < word_size
unfolding add32
add32-lt a b = omega arith

pub sub32-lt : (a b : ℕ) → sub32 a b < word_size
unfolding sub32
sub32-lt a b = omega arith

pub sub32_fits : (a b : ℕ) → b ≤ a → a < word_size → sub32 a b ≡ a - b
unfolding sub32
sub32_fits a b h s = omega arith

pub shl2-shr2 : (a : ℕ) → a < word_size → shl2 (shr2 a) ≡ a - a % 4
unfolding shl2 shr2
shl2-shr2 a h = omega arith
