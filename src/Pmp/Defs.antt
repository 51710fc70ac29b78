-- ===== src/Pmp/Defs.antt =====
-- The functions of kernel/src/pmp.c, over the driver's interface.
use Prim.Native.Nat.{bit_or}
use sofie_os.Base.{ℕ, zero, suc, ◌+◌, ◌^◌, not, Option, none, some, ◌==◌, leb, if◌then◌else◌}
use sofie_os.Word.{shr2, shl2, bit_at}
use sofie_os.Metal.{Metal, PmpConfig, pmp_off, pmp_tor, pmp_unlocked}

abbrev pub dynamic_start : ℕ
dynamic_start = 0

abbrev pub dynamic_end : ℕ
dynamic_end = 1

abbrev pub heap_start : ℕ
heap_start = 2

abbrev pub heap_end : ℕ
heap_end = 3

abbrev pub stack_start : ℕ
stack_start = 4

abbrev pub stack_end : ℕ
stack_end = 5

abbrev pub all_end : ℕ
all_end = 7

-- `stack_pmp` is the static variable of enable_buffer_access; `none` is -1.
pub record Pmp (Dev : Type 0) : Type 0 where
  pub dev : Dev
  pub pmp_robin : ℕ
  pub stack_pmp : Option ℕ

-- struct PmpSettings
pub record Settings : Type 0 where
  pub addr : ℕ → ℕ
  pub enabled : ℕ
  pub pmp_robin : ℕ

-- The slot that enable_buffer_access uses next.
abbrev pub current_slot : Option ℕ → ℕ → ℕ
current_slot none robin = robin
current_slot (some i) robin = i

-- The configuration that restore_pmp_settings writes to region i.
abbrev pub restored_config : Settings → ℕ → PmpConfig
restored_config s i = record {
  l = pmp_unlocked;
  a = if bit_at i s.enabled == 0 then pmp_off else pmp_tor;
  x = 0;
  w = 1;
  r = 1;
}

module _ {Dev : Type 0} ⦃metal : Metal Dev⦄ where
  unfoldable pub dump_pmp : ℕ → Pmp Dev → Option (Pmp Dev)
  dump_pmp region_id p = if metal.read_code p.dev region_id == 0 then some p else none

  unfoldable pub pmp_initialization : ℕ → Pmp Dev → Option (Pmp Dev)
  pmp_initialization stack_begin p =
      if not (metal.present p.dev)
      then none
      else let config : PmpConfig = record { l = pmp_unlocked; a = pmp_tor; x = 1; w = 1; r = 1 } in
        let (rc, dev) = metal.set_region (metal.init p.dev) all_end config (shr2 stack_begin) in
        if rc == 0 then some (record p { dev = dev; pmp_robin = 0 }) else none

  unfoldable pub set_top_of_range : ℕ → ℕ → ℕ → ℕ → ℕ → Dev → Option Dev
  set_top_of_range start_addr end_addr access start_region end_region d =
      if not (metal.present d)
      then none
      else let config : PmpConfig = record {
        l = pmp_unlocked;
        a = pmp_off;
        x = 0;
        w = access;
        r = access;
      } in
        let (rc, d) = metal.set_region d end_region config (shr2 end_addr) in
        if not (rc == 0)
        then none
        else let (rc, d) = metal.set_region d start_region config (shr2 start_addr) in
          if not (rc == 0)
          then none
          else let (rc, d) = metal.set_address_mode d end_region pmp_tor in
            if not (rc == 0) then none else some d

  -- If the range of a pair begins at the address or above it, its two regions are switched off, in
  -- the order given.
  unfoldable pub clear_pair : ℕ → ℕ → ℕ → ℕ → Dev → Dev
  clear_pair start_region first second addr d =
      if leb addr (shl2 (metal.address d start_region))
      then (metal.set_address_mode (metal.set_address_mode d first pmp_off).1 second pmp_off).1
      else d

  unfoldable pub clear_buffer_access : ℕ → Pmp Dev → Pmp Dev
  clear_buffer_access addr p =
      let d = clear_pair dynamic_start dynamic_end dynamic_start addr p.dev in
      let d = clear_pair heap_start heap_start heap_end addr d in
      let d = clear_pair stack_start stack_start stack_end addr d in record p { dev = d }

  -- The branch of one slot: `next` is the new pmp_robin.
  unfoldable pub take_slot : ℕ → ℕ → ℕ → ℕ → ℕ → ℕ → ℕ → Pmp Dev → Option (Pmp Dev)
  take_slot slot next start_region end_region start_addr end_addr mode p =
      elim (set_top_of_range start_addr end_addr 1 start_region end_region p.dev) [
        | none ↦ none
        | some d ↦ some (record {
          dev = d;
          pmp_robin = next;
          stack_pmp = if mode == 0 then p.stack_pmp else some slot;
        })
      ]

  unfoldable pub choose_slot : ℕ → ℕ → ℕ → ℕ → Pmp Dev → Option (Pmp Dev)
  unfolding take_slot
  choose_slot current start_addr end_addr mode p =
      if current == 0
      then take_slot 0 1 dynamic_start dynamic_end start_addr end_addr mode p
      else (if current == 1
          then take_slot 1 2 heap_start heap_end start_addr end_addr mode p
          else (if current == 2
              then take_slot 2 0 stack_start stack_end start_addr end_addr mode p
              else some p))

  -- The last test of enable_buffer_access.
  abbrev pub forget_stack : ℕ → Pmp Dev → Pmp Dev
  forget_stack mode p = if mode == 0 then record p { stack_pmp = none } else p

  unfoldable pub enable_buffer_access : ℕ → ℕ → ℕ → Pmp Dev → Option (Pmp Dev)
  enable_buffer_access start_addr end_addr mode p =
      elim (choose_slot (current_slot p.stack_pmp p.pmp_robin) start_addr end_addr mode p) [
        | none ↦ none
        | some q ↦ some (forget_stack mode q)
      ]

  -- The body of the loop of log_pmp_settings, for the `n` regions from `i` on.
  unfoldable pub log_from : ℕ → ℕ → Dev → Settings → Settings
  log_from zero i d s = s
  log_from (suc n) i d s = log_from n (i + 1) d (record s {
    addr = λ j. if j == i then metal.address d i else s.addr j;
    enabled = if (metal.config d i).a == pmp_off then s.enabled else bit_or s.enabled (2 ^ i);
  })

  unfoldable pub log_pmp_settings : Pmp Dev → Settings → Settings
  log_pmp_settings p s = record (log_from 6 0 p.dev (record s { enabled = 0 })) {
    pmp_robin = p.pmp_robin;
  }

  unfoldable pub restore_from : ℕ → ℕ → Settings → Dev → Dev
  restore_from zero i s d = d
  restore_from (suc n) i s d =
      restore_from n (i + 1) s (metal.set_region d i (restored_config s i) (s.addr i)).1

  unfoldable pub restore_pmp_settings : Settings → Pmp Dev → Pmp Dev
  restore_pmp_settings s p = record p { dev = restore_from 6 0 s p.dev; pmp_robin = s.pmp_robin }
