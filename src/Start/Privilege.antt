-- ===== src/Start/Privilege.antt =====
-- The bits that init_privilege of kernel/src/kernel_main.c sets in mstatus.
use sofie_os.Base.{ℕ, ◌^◌, ◌≡◌, ◌∙◌, ◌==◌, ◌||◌, if◌then◌else◌, arith, Bool-cases, inl, inr}
use sofie_os.Word.{bit_at, bit_at-bit_or, bit_at-pow, bit_at-le, clear_bit, bit_at-clear_bit}
use sofie_os.Start.Defs.{user_status, copy_bit}

bit_at-copy_bit :
    (from to j m : ℕ)
    → bit_at j (copy_bit from to m) ≡ (if j == to then bit_at from m else bit_at j m)
bit_at-copy_bit from to j m = elim (Bool-cases (bit_at from m == 0)) [
  | inl e ↦ rw e (bit_at-clear_bit to j m ∙ ground (arith, e))
  | inr e ↦ rw e (
      ground
        (arith, e, bit_at-bit_or j m (2 ^ to), bit_at-pow j to, bit_at-le from m, bit_at-le j m))
]

-- In what init_privilege writes the previous privilege, bits 11 and 12 of mstatus, is the user's; the
-- previous interrupt enables 7, 5 and 4 are the current ones 3, 1 and 0; every other bit is as before.
pub user_status_bits :
    (j mstatus : ℕ)
    → bit_at j (user_status mstatus) ≡ (
        if j == 11 || j == 12
        then 0
        else (if j == 7
            then bit_at 3 mstatus
            else (if j == 5
                then bit_at 1 mstatus
                else (if j == 4 then bit_at 0 mstatus else bit_at j mstatus))))
unfolding user_status
user_status_bits j mstatus =
    let c = copy_bit 3 7 mstatus in
    let b = copy_bit 1 5 c in
    let a = copy_bit 0 4 b in
    ground (
      arith,
      bit_at-clear_bit 12 j (clear_bit 11 a),
      bit_at-clear_bit 11 j a,
      bit_at-copy_bit 0 4 j b,
      bit_at-copy_bit 1 5 0 c,
      bit_at-copy_bit 1 5 j c,
      bit_at-copy_bit 3 7 0 mstatus,
      bit_at-copy_bit 3 7 1 mstatus,
      bit_at-copy_bit 3 7 j mstatus,
    )
