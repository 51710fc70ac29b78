-- ===== src/Start/Tests.antt =====
-- Runs of the start.
use sofie_os.Base.{◌+◌, ◌≡◌, refl, true, none, some, [], ◌∷◌, arith}
use sofie_os.Metal.Regs.{Regs, metal_regs, blank_regs}
use sofie_os.Kernel.{Task, Kernel, done}
use sofie_os.Fixture.{small_pmp, small_kernel}
use sofie_os.Pmp.Device.{IsReady}
use sofie_os.Word.{shr2}
use sofie_os.Metal.{PmpConfig}
use sofie_os.Pmp.{Pmp, pmp_initialization}
use sofie_os.Task.{is_runnable}
use sofie_os.Umalloc.Calls.{IsServing}
use sofie_os.Start.{delay, boot}
use sofie_os.Start.Defs.{user_heap_size}
use sofie_os.Start.Boot.{boot-IsServing}

-- The configuration of the region for all memory.
abbrev all_config : PmpConfig
all_config = record { l = 0; a = 1; x = 1; w = 1; r = 1 }

-- The device when it is set up.
abbrev started_pmp : Pmp Regs
started_pmp = record small_pmp {
  dev = (metal_regs.set_region (metal_regs.init blank_regs) 7 all_config (shr2 0x6000)).1;
}

started_pmp-IsReady : IsReady metal_regs started_pmp.dev
started_pmp-IsReady = record { here = refl; unlocked = λ i h. ground arith }

-- The kernel before main.
abbrev cold_kernel : Kernel Regs
cold_kernel = record small_kernel {
  mallocs = 0x5000 ∷ 0x5100 ∷ 0x5200 ∷ 0x5300 ∷ 0x5400 ∷ 0x5500 ∷ [];
  buffers = [];
  task_count = 0;
  tasks = [];
  current = none;
}

boot-IsServing_example :
    (k' : Kernel Regs) × (t : Task) × (boot 0x400 cold_kernel ≡ done 1 k')
    × IsServing cold_kernel.layout.user_heap (cold_kernel.layout.user_heap + user_heap_size) k'
    × (k'.free_list
        ≡ record { address = cold_kernel.layout.user_heap; length = user_heap_size } ∷ [])
    × (k'.tasks ≡ t ∷ [])
    × (k'.task_count ≡ 1)
    × (is_runnable t.state ≡ true)
    × (t.tid ≡ 1)
    × (t.trapframe.epc ≡ 0x400)
unfolding pmp_initialization
boot-IsServing_example =
    boot-IsServing 0x400 0x5000 0x5100 0x5200 0x5300 0x5400 0x5500 [] started_pmp cold_kernel refl
      (omega arith) (omega arith) (omega arith) (omega arith) (omega arith) refl refl (omega arith)
      refl started_pmp-IsReady (record { robin = omega arith; current = omega arith })

delay_test : delay 3 ≡ some 3
unfolding delay
delay_test = refl
