-- ===== src/Pmp/Tests.antt =====
-- Runs of the functions of kernel/src/pmp.c.
use sofie_os.Base.{
  ℕ, ◌+◌, ◌*◌, ◌/◌, ◌%◌, ◌≡◌, ◌&&◌, some, none, leb, ltb, ◌==◌, if◌then◌else◌, arith,
}
use sofie_os.Metal.Regs.{Regs, metal_regs, metal_regs-Lawful}
use sofie_os.Fixture.{first_task, small_pmp, small_regs-IsReady, open_pmp, open_regs-IsReady}
use sofie_os.Pmp.Device.{IsReady}
use sofie_os.Pmp.Slots.{Ranges, enable-Ranges, clear_buffer_access-Closes}
use sofie_os.Word.{shl2}
use sofie_os.Pmp.{
  Pmp, enable_buffer_access, clear_buffer_access, log_pmp_settings, restore_pmp_settings,
  current_slot,
}
use sofie_os.Pmp.Switch.{restore-log}
use sofie_os.Metal.{pmp_off, pmp_tor, pmp_unlocked}

enable-Ranges_example :
    let slot = current_slot small_pmp.stack_pmp small_pmp.pmp_robin in
    (q : Pmp Regs) × (enable_buffer_access 0x8200 0x8400 2 small_pmp ≡ some q)
    × IsReady metal_regs q.dev
    × Ranges metal_regs (2 * slot) (2 * slot + 1) 0x8200 0x8400 1 small_pmp.dev q.dev
    × (q.pmp_robin ≡ (slot + 1) % 3)
    × (q.stack_pmp ≡ (if 2 == 0 then none else some slot))
enable-Ranges_example =
    enable-Ranges metal_regs-Lawful 0x8200 0x8400 2 small_pmp small_regs-IsReady (omega arith)
      (omega arith) (omega arith)

clear_buffer_access-Closes_example :
    let q = clear_buffer_access 0x1208 open_pmp in
    IsReady metal_regs q.dev
    × ((j : ℕ)
        → metal_regs.config q.dev j ≡ (
            if ltb j 6 && leb 0x1208 (shl2 (metal_regs.address open_pmp.dev (j / 2 * 2)))
            then record (metal_regs.config open_pmp.dev j) { a = pmp_off }
            else metal_regs.config open_pmp.dev j))
    × ((j : ℕ) → metal_regs.address q.dev j ≡ metal_regs.address open_pmp.dev j)
    × (q.pmp_robin ≡ open_pmp.pmp_robin)
    × (q.stack_pmp ≡ open_pmp.stack_pmp)
clear_buffer_access-Closes_example =
    clear_buffer_access-Closes metal_regs-Lawful 0x1208 open_pmp open_regs-IsReady

restore-log_example :
    let r =
      restore_pmp_settings
        (log_pmp_settings open_pmp first_task.pmp)
        (record small_pmp { pmp_robin = 2 }) in
    IsReady metal_regs r.dev
    × ((j : ℕ)
        → metal_regs.config r.dev j ≡ (
            if ltb j 6
            then record {
              l = pmp_unlocked;
              a = if (metal_regs.config open_pmp.dev j).a == pmp_off then pmp_off else pmp_tor;
              x = 0;
              w = 1;
              r = 1;
            }
            else metal_regs.config (record small_pmp { pmp_robin = 2 }).dev j))
    × ((j : ℕ)
        → metal_regs.address r.dev j ≡ (
            if ltb j 6
            then metal_regs.address open_pmp.dev j
            else metal_regs.address (record small_pmp { pmp_robin = 2 }).dev j))
    × (r.pmp_robin ≡ open_pmp.pmp_robin)
restore-log_example =
    restore-log metal_regs-Lawful open_pmp (record small_pmp { pmp_robin = 2 }) first_task.pmp
      small_regs-IsReady (λ k. omega arith)
