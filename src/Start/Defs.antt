-- ===== src/Start/Defs.antt =====
-- The functions that run once, and the timer.
use Prim.Native.Nat.{bit_or, bit_and}
use sofie_os.Base.{
  zero, suc, ltb, ℕ, ◌+◌, ◌-◌, ◌*◌, ◌/◌, ◌%◌, ◌^◌, Bool, not, Option, none, some, List, [], ◌∷◌,
  ◌==◌, if◌then◌else◌,
}
use sofie_os.Word.{bit_at, clear_bit}
use sofie_os.Riscv.{Registers, r_mstatus, w_mstatus, r_mie, w_mie, mstatus_mie, mie_mtie}
use sofie_os.Metal.{Metal}
use sofie_os.Pmp.{pmp_initialization}
use sofie_os.Kernel.{Kernel, Cmd, ◌>>=◌, ◌>>◌, get, modify, lift_pmp}
use sofie_os.Task.Create.{create_task, init_tasks}
use sofie_os.Umalloc.{init_free_list}

-- BITS(idx, val)
abbrev bits : ℕ → ℕ → ℕ
bits idx val = val * 2 ^ idx

-- The loop of delay, with fuel for `n` rounds, from the count `i` on: the count when it stops, and
-- `none` if the fuel runs out.
unfoldable pub delay_from : ℕ → ℕ → ℕ → Option ℕ
delay_from zero i counter = none
delay_from (suc n) i counter =
    let later = delay_from n (i + 1) counter in if ltb i counter then later else some i

unfoldable pub delay : ℕ → Option ℕ
unfolding delay_from
delay counter = delay_from (suc counter) 0 counter

-- What cpu_clock_init writes to PLLCFG first.
unfoldable pub pll_config : ℕ
pll_config = bit_or (bit_or (bit_or (bits 17 1) (bits 0 1)) (bits 4 (80 / 2 - 1))) (bits 10 1)

-- The condition of the loop, by what PLLCFG reads: `==` binds tighter than `&`.
unfoldable pub pll_waits : ℕ → Bool
pll_waits pll = not (bit_and pll (if bits 31 1 == 0 then 1 else 0) == 0)

-- The writes to PLLCFG, by what it reads after the delay: `none` if the loop goes on.
unfoldable pub cpu_clock_init : ℕ → Option (List ℕ)
cpu_clock_init pll = if pll_waits pll then none else some (pll_config ∷ bit_or pll (bits 16 1) ∷ [])

-- The timer's registers and the hart's.
pub record Timer : Type 0 where
  pub mtime : ℕ
  pub mtimecmp : ℕ
  pub hart : Registers

abbrev pub timer_interval : ℕ
timer_interval = 32

unfoldable pub get_mtime : Timer → ℕ
get_mtime t = t.mtime

unfoldable pub set_mtimecmp : ℕ → Timer → Timer
set_mtimecmp value t = record t { mtimecmp = value }

unfoldable pub get_mtimecmp : Timer → ℕ
get_mtimecmp t = t.mtimecmp

unfoldable pub init_timer : Timer → Timer
unfolding get_mtime set_mtimecmp
init_timer t =
    let t1 = set_mtimecmp ((get_mtime t + timer_interval) % 2 ^ 64) t in
    let h1 = w_mstatus (bit_or (r_mstatus t1.hart) mstatus_mie) t1.hart in
    record t1 { hart = w_mie (bit_or (r_mie h1) mie_mtie) h1 }

unfoldable pub update_timercmp : Timer → Timer
unfolding get_mtimecmp set_mtimecmp
update_timercmp t = set_mtimecmp ((get_mtimecmp t + timer_interval) % 2 ^ 64) t

-- Bit `to` becomes the bit `from`.
abbrev pub copy_bit : ℕ → ℕ → ℕ → ℕ
copy_bit from to m = if bit_at from m == 0 then clear_bit to m else bit_or m (2 ^ to)

-- What init_privilege writes to mstatus.
unfoldable pub user_status : ℕ → ℕ
user_status mstatus =
    clear_bit 12 (clear_bit 11 (copy_bit 0 4 (copy_bit 1 5 (copy_bit 3 7 mstatus))))

unfoldable pub init_privilege : Registers → Registers
init_privilege h = w_mstatus (user_status (r_mstatus h)) h

-- USER_HEAP_SIZE
abbrev pub user_heap_size : ℕ
user_heap_size = 4096

module _ {Dev : Type 0} where
  -- mscratch points to the frame that is no task's.
  unfoldable pub trap_initialization : Cmd (Kernel Dev) (Unit {0})
  trap_initialization = modify (λ k. record k { privileges = 0; mscratch = none })

module _ {Dev : Type 0} ⦃metal : Metal Dev⦄ where
  -- main up to the scheduler, without the clock, the serial port, mstatus and the timer.
  unfoldable pub boot : ℕ → Cmd (Kernel Dev) ℕ
  boot real_main = do
    trap_initialization
    init_tasks
    k ← get
    init_free_list k.layout.user_heap user_heap_size
    lift_pmp (pmp_initialization k.layout.stack_begin)
    create_task real_main
