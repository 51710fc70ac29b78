-- ===== src/Pmp/Switch.antt =====
-- The PMP settings that a task takes along: log_pmp_settings when it yields, restore_pmp_settings
-- when it is scheduled again.
use Prim.Native.Nat.{max}
use sofie_os.Base.{
  ℕ, zero, suc, ◌+◌, ◌≤◌, ◌<◌, ◌≡◌, refl, ◌∙◌, ◌^◌, Bool, ◌&&◌, arith, ◌==◌, leb, ltb,
  if◌then◌else◌,
}
use sofie_os.Word.{word_size, bit_at, bit_at-bit_or, bit_at-pow, bit_at-zero}
use sofie_os.Metal.{Metal, Lawful, pmp_off, pmp_tor, pmp_unlocked, region_count}
use sofie_os.Pmp.Defs.{
  Pmp, Settings, log_from, log_pmp_settings, restored_config, restore_from, restore_pmp_settings,
}
use sofie_os.Pmp.Device.{IsReady, config-set_region, address-set_region, set_region-IsReady}

abbrev within : ℕ → ℕ → ℕ → Bool
within i n j = leb i j && ltb j (i + n)

module _ {Dev : Type 0} ⦃metal : Metal Dev⦄ where
  log_from-addr :
      (n i : ℕ) (d : Dev) (s : Settings) (j : ℕ)
      → (log_from n i d s).addr j ≡ (if within i n j then metal.address d j else s.addr j)
  unfolding log_from
  log_from-addr zero i d s j = ground arith
  log_from-addr (suc n) i d s j = log_from-addr n (i + 1) d _ j ∙ ground arith

  log_from-enabled :
      (n i : ℕ) (d : Dev) (s : Settings) (j : ℕ)
      → bit_at j (log_from n i d s).enabled ≡ (
          if within i n j
          then max (bit_at j s.enabled) (if (metal.config d j).a == pmp_off then 0 else 1)
          else bit_at j s.enabled)
  unfolding log_from
  log_from-enabled zero i d s j = ground arith
  log_from-enabled (suc n) i d s j =
      log_from-enabled n (i + 1) d _ j
      ∙ ground (arith, bit_at-bit_or j s.enabled (2 ^ i), bit_at-pow j i)

  module _ (laws : Lawful metal) (s : Settings) where
    restore_from-IsReady :
        (n i : ℕ) (d : Dev)
        → IsReady metal d
        → i + n ≤ region_count
        → IsReady metal (restore_from n i s d)
    unfolding restore_from
    restore_from-IsReady zero i d ready h = ready
    restore_from-IsReady (suc n) i d ready h =
        restore_from-IsReady n (i + 1) _
          (set_region-IsReady laws d ready i (restored_config s i) (s.addr i) (omega arith) refl)
          (omega arith)

    restore_from-config :
        (n i : ℕ) (d : Dev) (j : ℕ)
        → IsReady metal d
        → i + n ≤ region_count
        → metal.config (restore_from n i s d) j
          ≡ (if within i n j then restored_config s j else metal.config d j)
    unfolding restore_from
    restore_from-config zero i d j ready h = ground arith
    restore_from-config (suc n) i d j ready h =
        restore_from-config n (i + 1) _ j
          (set_region-IsReady laws d ready i (restored_config s i) (s.addr i) (omega arith) refl)
          (omega arith)
        ∙ ground (
          arith,
          config-set_region laws d ready i (restored_config s i) (s.addr i) (omega arith) j,
        )

    restore_from-address :
        (n i : ℕ) (d : Dev) (j : ℕ)
        → IsReady metal d
        → i + n ≤ region_count
        → ((k : ℕ) → k < i + n → s.addr k < word_size)
        → metal.address (restore_from n i s d) j
          ≡ (if within i n j then s.addr j else metal.address d j)
    unfolding restore_from
    restore_from-address zero i d j ready h small = ground arith
    restore_from-address (suc n) i d j ready h small =
        restore_from-address n (i + 1) _ j
          (set_region-IsReady laws d ready i (restored_config s i) (s.addr i) (omega arith) refl)
          (omega arith) (λ k b. small k (omega arith))
        ∙ ground (
          arith,
          address-set_region laws d ready i (restored_config s i) (s.addr i) (omega arith) j
              (small i (omega arith)),
        )

  -- Settings that a task logged, restored on any later state `q` of the device, give its six
  -- regions back: each has its address, is in top-of-range mode exactly if it was on, and is
  -- readable and writable but not executable. The round robin is the task's again, and the
  -- remaining regions are those of `q`. The device is lawful, no region is locked in `q`, and the
  -- logged addresses fit in 32 bits.
  pub restore-log :
      (laws : Lawful metal) (p q : Pmp Dev) (s : Settings)
      → IsReady metal q.dev
      → ((k : ℕ) → metal.address p.dev k < word_size)
      → let r = restore_pmp_settings (log_pmp_settings p s) q in
        IsReady metal r.dev
        × ((j : ℕ)
            → metal.config r.dev j ≡ (
                if ltb j 6
                then record {
                  l = pmp_unlocked;
                  a = if (metal.config p.dev j).a == pmp_off then pmp_off else pmp_tor;
                  x = 0;
                  w = 1;
                  r = 1;
                }
                else metal.config q.dev j))
        × ((j : ℕ)
            → metal.address r.dev j
              ≡ (if ltb j 6 then metal.address p.dev j else metal.address q.dev j))
        × (r.pmp_robin ≡ p.pmp_robin)
  unfolding restore_pmp_settings log_pmp_settings
  restore-log laws p q s ready small =
      let s0 = record s { enabled = 0 } in
      let s' = record (log_from 6 0 p.dev s0) { pmp_robin = p.pmp_robin } in
      let ad = log_from-addr 6 0 p.dev s0 in
      (
        restore_from-IsReady laws s' 6 0 q.dev ready (omega arith),
        λ j.
            restore_from-config laws s' 6 0 q.dev j ready (omega arith)
            ∙ ground (arith, log_from-enabled 6 0 p.dev s0 j, bit_at-zero j),
        λ j.
            restore_from-address laws s' 6 0 q.dev j ready (omega arith)
              (λ k b. ground (arith, ad k, small k))
            ∙ ground (arith, ad j),
        refl,
      )
