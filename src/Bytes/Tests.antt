-- ===== src/Bytes/Tests.antt =====
-- Runs of the loops of memcpy and umemset.
use sofie_os.Base.{◌%◌, ◌≡◌, refl}
use sofie_os.Word.{add32}
use sofie_os.Memory.{Mem, store8}
use sofie_os.Bytes.{copy_up, fill}

-- Byte `x` holds `x`.
abbrev ramp : Mem
ramp x = x % 0x100

copy_up_test : copy_up 2 0x10 0x20 ramp 0x11 ≡ 0x21
unfolding copy_up store8 add32
copy_up_test = refl

fill_test : fill 2 0x10 0x141 ramp 0x11 ≡ 0x41
unfolding fill store8 add32
fill_test = refl
