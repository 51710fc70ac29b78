-- ===== src/Word/Bits.antt =====
-- `(x >> i) & 1`, and how `|` and `1 << j` change it.
use Prim.Native.Nat.{max, digits, bit_or, bit_or-bitwise}
use native.Mathlib.Nat.{pow-suc}
use sofie_os.Base.{
  ap, ◌∙◌, Bool-cases, inl, inr, ℕ, zero, suc, ◌+◌, ◌-◌, ◌*◌, ◌/◌, ◌%◌, ◌^◌, ◌≤◌, ◌≡◌, refl, arith,
  ◌==◌, if◌then◌else◌,
}

-- Bit i of x.
unfoldable pub bit_at : ℕ → ℕ → ℕ
bit_at zero x = x % 2
bit_at (suc i) x = bit_at i (x / 2)

-- `x & ~(1 << i)`
abbrev pub clear_bit : ℕ → ℕ → ℕ
clear_bit i m = m - bit_at i m * 2 ^ i

abbrev or_digits : ℕ → ℕ → ℕ → ℕ
or_digits n a b = digits (λ b. b) max n a b

or_digits_fuel : (n m a b : ℕ) → a ≤ n → a ≤ m → or_digits n a b ≡ or_digits m a b
or_digits_fuel zero zero a b p q = refl
or_digits_fuel zero (suc m) zero b p q = refl
or_digits_fuel zero (suc m) (suc a) b p q = absurd (omega arith)
or_digits_fuel (suc n) zero zero b p q = refl
or_digits_fuel (suc n) zero (suc a) b p q = absurd (omega arith)
or_digits_fuel (suc n) (suc m) zero b p q = refl
or_digits_fuel (suc n) (suc m) (suc a) b p q =
    omega (arith, or_digits_fuel n m (suc a / 2) (b / 2) (omega arith) (omega arith))

zero-bit_or : (b : ℕ) → bit_or 0 b ≡ b
zero-bit_or b = bit_or-bitwise 0 b

bit_or_step : (a b : ℕ) → bit_or a b ≡ bit_or (a / 2) (b / 2) * 2 + max (a % 2) (b % 2)
bit_or_step zero b = omega (arith, zero-bit_or b, zero-bit_or (b / 2))
bit_or_step (suc a) b = omega (
  arith,
  bit_or-bitwise (suc a) b,
  bit_or-bitwise (suc a / 2) (b / 2),
  or_digits_fuel a (suc a / 2) (suc a / 2) (b / 2) (omega arith) (omega arith),
)

half-bit_or : (a b : ℕ) → bit_or a b / 2 ≡ bit_or (a / 2) (b / 2)
half-bit_or a b = omega (arith, bit_or_step a b)

-- `|` sets a bit that either side sets.
pub bit_at-bit_or : (i a b : ℕ) → bit_at i (bit_or a b) ≡ max (bit_at i a) (bit_at i b)
unfolding bit_at
bit_at-bit_or zero a b = omega (arith, bit_or_step a b)
bit_at-bit_or (suc i) a b = rw (half-bit_or a b) (bit_at-bit_or i (a / 2) (b / 2))

pub bit_at-zero : (i : ℕ) → bit_at i 0 ≡ 0
unfolding bit_at
bit_at-zero zero = refl
bit_at-zero (suc i) = bit_at-zero i

half-pow : (j : ℕ) → 2 ^ suc j / 2 ≡ 2 ^ j
half-pow j = omega (arith, pow-suc 2 j)

bit_at-one : (i : ℕ) → bit_at (suc i) 1 ≡ 0
unfolding bit_at
bit_at-one i = bit_at-zero i

-- `1 << j` has the one bit j.
pub bit_at-pow : (i j : ℕ) → bit_at i (2 ^ j) ≡ (if i == j then 1 else 0)
unfolding bit_at
bit_at-pow zero zero = refl
bit_at-pow zero (suc j) = grind (arith, pow-suc 2 j)
bit_at-pow (suc i) zero = grind (arith, bit_at-zero i)
bit_at-pow (suc i) (suc j) = rw (half-pow j) (ground (arith, bit_at-pow i j))

pub bit_at-le : (i x : ℕ) → bit_at i x ≤ 1
unfolding bit_at
bit_at-le zero x = omega arith
bit_at-le (suc i) x = bit_at-le i (x / 2)

-- The set bit of a number is a part of it.
bit_at-part : (i m : ℕ) → bit_at i m * 2 ^ i ≤ m
unfolding bit_at
bit_at-part zero m = omega arith
bit_at-part (suc i) m = elim (Bool-cases (bit_at i (m / 2) == 0)) [
  | inl e ↦ ground (arith, e)
  | inr e ↦ ground (arith, e, bit_at-le i (m / 2), pow-suc 2 i, bit_at-part i (m / 2))
]

half-clear_bit : (i m : ℕ) → clear_bit (suc i) m / 2 ≡ clear_bit i (m / 2)
unfolding bit_at
half-clear_bit i m = elim (Bool-cases (bit_at i (m / 2) == 0)) [
  | inl e ↦ ground (arith, e)
  | inr e ↦ ground (arith, e, bit_at-le i (m / 2), pow-suc 2 i, bit_at-part i (m / 2))
]

-- Clearing a bit clears that bit alone.
pub bit_at-clear_bit : (i j m : ℕ) → bit_at j (clear_bit i m) ≡ (if j == i then 0 else bit_at j m)
unfolding bit_at
bit_at-clear_bit zero zero m = omega arith
bit_at-clear_bit zero (suc j) m =
    let half : clear_bit 0 m / 2 ≡ m / 2 = unfold bit_at in omega arith in
    ap (bit_at j) half ∙ ground arith
bit_at-clear_bit (suc i) zero m = elim (Bool-cases (bit_at i (m / 2) == 0)) [
  | inl e ↦ ground (arith, e)
  | inr e ↦ ground (arith, e, bit_at-le i (m / 2), pow-suc 2 i, bit_at-part i (m / 2))
]
bit_at-clear_bit (suc i) (suc j) m =
    rw (half-clear_bit i m) (ground (arith, bit_at-clear_bit i j (m / 2)))
