-- ===== src/Buffer/Tests.antt =====
-- Runs of the functions of kernel/src/buffer.c.
use sofie_os.Base.{ℕ, ◌+◌, ◌*◌, ◌≡◌, ◌≢◌, ◌⊎◌, refl, some, [], ◌∷◌, ◌==◌, if◌then◌else◌, arith}
use sofie_os.Metal.Regs.{Regs, metal_regs, metal_regs-Lawful}
use sofie_os.Kernel.{Kernel, done}
use sofie_os.Fixture.{small_kernel, small_regs-IsReady, small_pmp-InTurn}
use sofie_os.Pmp.Device.{IsReady}
use sofie_os.Pmp.Slots.{Ranges}
use sofie_os.Word.{add32}
use sofie_os.Buffer.{add_buffer_entry, remove_buffer_entry, has_address}
use sofie_os.Buffer.Order.{IsSorted}
use sofie_os.Buffer.Lookup.{entry_at}
use sofie_os.Buffer.Calls.{add_buffer_entry-new}
use sofie_os.Buffer.Revoke.{add-remove}
use sofie_os.Pmp.{current_slot}
use sofie_os.Metal.{pmp_off}

add_buffer_entry-new_example :
    let slot = current_slot small_kernel.pmp.stack_pmp small_kernel.pmp.pmp_robin in
    (k' : Kernel Regs) × (add_buffer_entry 0x8200 0x100 1 small_kernel ≡ done tt k')
    × IsSorted k'.buffers
    × ((a : ℕ)
        → entry_at a k'.buffers ≡ (
            if 0x8200 == a
            then some (record { address = 0x8200; length = 0x100; owner = 1 })
            else entry_at a small_kernel.buffers))
    × IsReady metal_regs k'.pmp.dev
    × Ranges metal_regs
        (2 * slot)
        (2 * slot + 1)
        0x8200
        (add32 0x8200 0x100)
        1
        small_kernel.pmp.dev
        k'.pmp.dev
    × (k' ≡ record small_kernel { mallocs = (0x5100 ∷ []); buffers = k'.buffers; pmp = k'.pmp })
unfolding has_address
add_buffer_entry-new_example =
    add_buffer_entry-new metal_regs-Lawful 0x8200 0x100 1 0x5000 (0x5100 ∷ []) small_kernel (tt, tt)
      refl (omega arith) refl small_regs-IsReady small_pmp-InTurn (omega arith)

-- The turn is the first slot's: its regions are 0 and 1.
add-remove_example :
    (k1 : Kernel Regs) × (k2 : Kernel Regs) × (add_buffer_entry 0x8200 0x100 1 small_kernel
      ≡ done tt k1)
    × Ranges metal_regs 0 1 0x8200 (add32 0x8200 0x100) 1 small_kernel.pmp.dev k1.pmp.dev
    × (remove_buffer_entry 0x8200 k1 ≡ done tt k2)
    × IsSorted k2.buffers
    × ((a : ℕ) → entry_at a k2.buffers ≡ entry_at a small_kernel.buffers)
    × ((metal_regs.config k2.pmp.dev 0).a ≡ pmp_off)
    × ((metal_regs.config k2.pmp.dev 1).a ≡ pmp_off)
    × ((j : ℕ)
        → j ≢ 0
        → j ≢ 1
        → ((metal_regs.config k2.pmp.dev j).a ≡ pmp_off)
          ⊎ (metal_regs.config k2.pmp.dev j ≡ metal_regs.config small_kernel.pmp.dev j))
    × (k2 ≡ record small_kernel { mallocs = (0x5100 ∷ []); buffers = k2.buffers; pmp = k2.pmp })
unfolding has_address
add-remove_example =
    add-remove metal_regs-Lawful 0x8200 0x100 1 0x5000 (0x5100 ∷ []) small_kernel (tt, tt) refl
      (omega arith) refl small_regs-IsReady small_pmp-InTurn (omega arith) refl
