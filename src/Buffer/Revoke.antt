-- ===== src/Buffer/Revoke.antt =====
-- add_buffer_entry and remove_buffer_entry of kernel/src/buffer.c, one after the other.
use sofie_os.Base.{
  ℕ, ◌+◌, ◌*◌, ◌/◌, ◌%◌, ◌<◌, ◌≡◌, ◌≢◌, ◌⊎◌, ◌∙◌, refl, some, List, ◌∷◌, true, false, arith, inl,
  inr, Bool-cases, ◌&&◌, leb, ltb,
}
use sofie_os.Word.{word_size, add32, shl2, shl2-shr2}
use sofie_os.Metal.{Metal, Lawful, pmp_off}
use sofie_os.Pmp.{current_slot, clear_buffer_access}
use sofie_os.Pmp.Device.{IsReady}
use sofie_os.Pmp.Slots.{InTurn, Ranges, clear_buffer_access-Closes}
use sofie_os.Kernel.{BufferEntry, Kernel, done}
use sofie_os.Buffer.Defs.{remove_first, has_address, add_buffer_entry, remove_buffer_entry}
use sofie_os.Buffer.Order.{IsSorted, remove_first-IsSorted}
use sofie_os.Buffer.Lookup.{entry_at, entry_at-remove_first, entry_at_missing}
use sofie_os.Buffer.Calls.{add_buffer_entry-new}

entry_at-has_address :
    (a : ℕ) (p : BufferEntry) (l : List BufferEntry)
    → entry_at a l ≡ some p
    → has_address a l ≡ true
entry_at-has_address a p l e = elim (Bool-cases (has_address a l)) [
  | inl h ↦ h
  | inr h ↦ absurd (ground (arith, e, entry_at_missing a l h))
]

module _ {Dev : Type 0} ⦃metal : Metal Dev⦄ where
  -- A pair of regions that was set to a range from a multiple of 4 on is switched off by
  -- clear_buffer_access at the start of the range.
  revoked :
      (laws : Lawful metal) (address to slot : ℕ) (k0 k : Kernel Dev)
      → slot < 3
      → address < word_size
      → address % 4 ≡ 0
      → IsReady metal k.pmp.dev
      → Ranges metal (2 * slot) (2 * slot + 1) address to 1 k0.pmp.dev k.pmp.dev
      → let q = clear_buffer_access address k.pmp in
        ((metal.config q.dev (2 * slot)).a ≡ pmp_off)
        × ((metal.config q.dev (2 * slot + 1)).a ≡ pmp_off)
        × ((j : ℕ)
            → j ≢ 2 * slot
            → j ≢ 2 * slot + 1
            → ((metal.config q.dev j).a ≡ pmp_off)
              ⊎ (metal.config q.dev j ≡ metal.config k0.pmp.dev j))
  revoked laws address to slot k0 k lt small aligned ready range =
      let (ready', config, other, robin, stack) =
        clear_buffer_access-Closes laws address k.pmp ready in
      let start : shl2 (metal.address k.pmp.dev (2 * slot)) ≡ address =
        rw range.start_address (shl2-shr2 address small ∙ omega arith) in
      let first : 2 * slot / 2 * 2 ≡ 2 * slot = omega arith in
      let second : (2 * slot + 1) / 2 * 2 ≡ 2 * slot = omega arith in
      (
        ground (arith, config (2 * slot), first, start),
        ground (arith, config (2 * slot + 1), second, start),
        λ j n m.
            elim (Bool-cases
              (ltb j 6 && leb address (shl2 (metal.address k.pmp.dev (j / 2 * 2))))) [
                | inl above ↦ inl (ground (arith, config j, above))
                | inr below ↦ inr (ground (arith, config j, below, range.other_config j n m))
              ],
      )

  -- A buffer that is entered and taken out again: where the list is in order, the address is new, below
  -- 2^32 and a multiple of 4, malloc succeeds and the slots to use next exist, on a lawful device with
  -- no locked region, add_buffer_entry and then remove_buffer_entry at the address succeed. The list is
  -- in order and holds what it held before, the two regions that were set to the buffer's range are off,
  -- and each other region is off or has the configuration that it had before; nothing else of the
  -- kernel's state changes but the memory pool.
  pub add-remove :
      (laws : Lawful metal) (address len owner m : ℕ) (rest : List ℕ) (k : Kernel Dev)
      → IsSorted k.buffers
      → k.mallocs ≡ m ∷ rest
      → m ≢ 0
      → has_address address k.buffers ≡ false
      → IsReady metal k.pmp.dev
      → InTurn k.pmp
      → address < word_size
      → address % 4 ≡ 0
      → let slot = current_slot k.pmp.stack_pmp k.pmp.pmp_robin in
        (k1 : Kernel Dev) × (k2 : Kernel Dev) × (add_buffer_entry address len owner k ≡ done tt k1)
        × Ranges metal (2 * slot) (2 * slot + 1) address (add32 address len) 1 k.pmp.dev k1.pmp.dev
        × (remove_buffer_entry address k1 ≡ done tt k2)
        × IsSorted k2.buffers
        × ((a : ℕ) → entry_at a k2.buffers ≡ entry_at a k.buffers)
        × ((metal.config k2.pmp.dev (2 * slot)).a ≡ pmp_off)
        × ((metal.config k2.pmp.dev (2 * slot + 1)).a ≡ pmp_off)
        × ((j : ℕ)
            → j ≢ 2 * slot
            → j ≢ 2 * slot + 1
            → ((metal.config k2.pmp.dev j).a ≡ pmp_off)
              ⊎ (metal.config k2.pmp.dev j ≡ metal.config k.pmp.dev j))
        × (k2 ≡ record k { mallocs = rest; buffers = k2.buffers; pmp = k2.pmp })
  unfolding remove_buffer_entry
  add-remove laws address len owner m rest k s e n h ready turn small aligned =
      let slot = current_slot k.pmp.stack_pmp k.pmp.pmp_robin in
      let (k1, run, sorted, entries, ready', range, same) =
        add_buffer_entry-new laws address len owner m rest k s e n h ready turn small in
      let new : BufferEntry = record { address = address; length = len; owner = owner } in
      let there = entry_at-has_address address new k1.buffers (ground (arith, entries address)) in
      let (first, second, others) =
        revoked laws address (add32 address len) slot k k1 turn.current small aligned ready'
          range in
      (
        k1,
        record k1 {
          buffers = remove_first address k1.buffers;
          pmp = clear_buffer_access address k1.pmp;
        },
        run,
        range,
        rw there,
        remove_first-IsSorted address k1.buffers sorted,
        λ a. ground (
          arith,
          entry_at-remove_first address a k1.buffers sorted,
          entries a,
          entry_at_missing address k.buffers h,
        ),
        first,
        second,
        others,
        rw same refl,
      )
