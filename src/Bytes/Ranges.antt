-- ===== src/Bytes/Ranges.antt =====
-- What memcpy and umemset leave in memory.
use sofie_os.Base.{
  ℕ, zero, suc, ◌+◌, ◌-◌, ◌%◌, ◌≤◌, ◌<◌, ◌≡◌, ◌⊎◌, ◌∙◌, ◌&&◌, leb, ltb, if◌then◌else◌, arith,
}
use sofie_os.Word.{word_size, add32}
use sofie_os.Memory.{Mem, store8}
use sofie_os.Bytes.Defs.{copy_up, fill}

add32_one : (a n : ℕ) → a + suc n ≤ word_size → 0 < n → add32 a 1 ≡ a + 1
unfolding add32
add32_one a n h p = omega arith

-- Where neither range runs over the end of the address space and the ranges do not overlap, memcpy's
-- loop makes the bytes of the destination those of the source and changes no other byte.
pub copy_up_lem :
    (n dst src : ℕ) (m : Mem)
    → dst + n ≤ word_size
    → src + n ≤ word_size
    → (src + n ≤ dst) ⊎ (dst + n ≤ src)
    → (x : ℕ)
    → copy_up n dst src m x ≡ (if leb dst x && ltb x (dst + n) then m (src + (x - dst)) else m x)
unfolding copy_up
copy_up_lem zero dst src m hd hs apart x = ground arith
copy_up_lem (suc zero) dst src m hd hs apart x = unfold store8 in ground arith
copy_up_lem (suc (suc n)) dst src m hd hs apart x =
    rw (add32_one dst (suc n) hd (omega arith), add32_one src (suc n) hs (omega arith))
      (copy_up_lem (suc n) (dst + 1) (src + 1) (store8 m dst (m src)) (omega arith) (omega arith)
          (omega arith) x
        ∙ unfold store8 in ground arith)

-- Where the range does not run over the end of the address space, umemset's loop makes each byte of it
-- the low byte of the value and changes no other byte.
pub fill_lem :
    (n dst val : ℕ) (m : Mem)
    → dst + n ≤ word_size
    → (x : ℕ) → fill n dst val m x ≡ (if leb dst x && ltb x (dst + n) then val % 0x100 else m x)
unfolding fill
fill_lem zero dst val m h x = ground arith
fill_lem (suc zero) dst val m h x = unfold store8 in ground arith
fill_lem (suc (suc n)) dst val m h x = rw (add32_one dst (suc n) h (omega arith)) (
    fill_lem (suc n) (dst + 1) val (store8 m dst (val % 0x100)) (omega arith) x
    ∙ unfold store8 in ground arith)
