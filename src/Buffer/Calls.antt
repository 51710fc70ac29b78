-- ===== src/Buffer/Calls.antt =====
-- The calls of kernel/src/buffer.c as a whole: the list, the PMP and the memory they take.
use sofie_os.Base.{
  ℕ, ◌+◌, ◌*◌, Bool-cases, inl, inr, ◌<◌, ◌≡◌, ◌≢◌, refl, some, none, List, [], ◌∷◌, true, false,
  arith, ◌==◌, if◌then◌else◌,
}
use sofie_os.Word.{add32-lt, word_size, add32}
use sofie_os.Metal.{Metal, Lawful}
use sofie_os.Pmp.{current_slot, clear_buffer_access}
use sofie_os.Pmp.Device.{IsReady}
use sofie_os.Pmp.Slots.{InTurn, Ranges, enable-Ranges}
use sofie_os.Kernel.{BufferEntry, Kernel, done, panicked}
use sofie_os.Buffer.Defs.{
  clear_owner, remove_first, has_address, add_buffer_entry, clear_buffer_entries,
  remove_buffer_entry,
}
use sofie_os.Buffer.Order.{
  IsSorted, insert_sorted, insert_entry_lem, insert_sorted-IsSorted, remove_first-IsSorted,
  clear_owner-IsSorted,
}
use sofie_os.Buffer.Lookup.{
  entry_at, entry_at-insert_sorted, entry_at-remove_first, entry_at-clear_owner, entry_at_missing,
  unless_owned,
}

abbrev pub new_entry : ℕ → ℕ → ℕ → BufferEntry
new_entry a n o = record { address = a; length = n; owner = o }

module _ {Dev : Type 0} ⦃metal : Metal Dev⦄ where
  -- Where malloc has no memory left, add_buffer_entry panics, whatever the list holds.
  pub add_buffer_entry-panics :
      (address len owner : ℕ) (k : Kernel Dev)
      → k.mallocs ≡ []
      → add_buffer_entry address len owner k ≡ panicked k
  unfolding add_buffer_entry
  add_buffer_entry-panics address len owner k e = ground arith

  -- Where the list is in order, the address has an entry already and malloc succeeds, add_buffer_entry
  -- changes nothing but the memory pool: the old length and owner stay, and no range is enabled.
  pub add_buffer_entry-known :
      (address len owner m : ℕ) (rest : List ℕ) (k : Kernel Dev)
      → IsSorted k.buffers
      → k.mallocs ≡ m ∷ rest
      → m ≢ 0
      → has_address address k.buffers ≡ true
      → add_buffer_entry address len owner k ≡ done tt (record k { mallocs = rest })
  unfolding add_buffer_entry
  add_buffer_entry-known address len owner m rest k s e n h =
      ground (arith, insert_entry_lem (new_entry address len owner) k.buffers s)

  -- Where the list is in order, the address is new and below 2^32, malloc succeeds and the slots to
  -- use next exist, on a lawful device with no locked region, add_buffer_entry succeeds. The list
  -- stays in order and gains exactly the new entry; the slot that is next in turn is set to the
  -- buffer's range with read and write access, and no other region changes; nothing else of the
  -- kernel's state changes but the memory pool.
  pub add_buffer_entry-new :
      (laws : Lawful metal) (address len owner m : ℕ) (rest : List ℕ) (k : Kernel Dev)
      → IsSorted k.buffers
      → k.mallocs ≡ m ∷ rest
      → m ≢ 0
      → has_address address k.buffers ≡ false
      → IsReady metal k.pmp.dev
      → InTurn k.pmp
      → address < word_size
      → let slot = current_slot k.pmp.stack_pmp k.pmp.pmp_robin in
        (k' : Kernel Dev) × (add_buffer_entry address len owner k ≡ done tt k')
        × IsSorted k'.buffers
        × ((a : ℕ)
            → entry_at a k'.buffers ≡ (
                if address == a
                then some (record { address = address; length = len; owner = owner })
                else entry_at a k.buffers))
        × IsReady metal k'.pmp.dev
        × Ranges metal (2 * slot) (2 * slot + 1) address (add32 address len) 1 k.pmp.dev k'.pmp.dev
        × (k' ≡ record k { mallocs = rest; buffers = k'.buffers; pmp = k'.pmp })
  unfolding add_buffer_entry
  add_buffer_entry-new laws address len owner m rest k s e n h ready turn small =
      let entry = new_entry address len owner in
      let (q, on, ready', range, next, stack) =
        enable-Ranges laws address (add32 address len) 0 k.pmp ready small (add32-lt address len)
          turn.current in
      (
        record k { mallocs = rest; buffers = insert_sorted entry k.buffers; pmp = q },
        ground (arith, insert_entry_lem entry k.buffers s, on),
        insert_sorted-IsSorted entry k.buffers s h,
        λ a. entry_at-insert_sorted entry a k.buffers h,
        ready',
        range,
        refl,
      )

  -- On a list in order, remove_buffer_entry never fails. The list stays in order and loses exactly the
  -- entry at the address, if there is one; nothing else of the kernel's state changes but the PMP.
  pub remove_buffer_entry-entries :
      (address : ℕ) (k : Kernel Dev)
      → IsSorted k.buffers
      → (k' : Kernel Dev) × (remove_buffer_entry address k ≡ done tt k')
        × IsSorted k'.buffers
        × ((a : ℕ) → entry_at a k'.buffers ≡ (if address == a then none else entry_at a k.buffers))
        × (k' ≡ record k { buffers = k'.buffers; pmp = k'.pmp })
  unfolding remove_buffer_entry
  remove_buffer_entry-entries address k s = elim (Bool-cases (has_address address k.buffers)) [
    | inl h ↦ (
      record k {
        buffers = remove_first address k.buffers;
        pmp = clear_buffer_access address k.pmp;
      },
      rw h,
      remove_first-IsSorted address k.buffers s,
      λ a. entry_at-remove_first address a k.buffers s,
      refl,
    )
    | inr h ↦ (k, rw h, s, λ a. ground (arith, entry_at_missing address k.buffers h), refl)
  ]

  -- On a list in order, clear_buffer_entries never fails. The list stays in order and loses exactly the
  -- entries that belong to the task; nothing else of the kernel's state changes.
  pub clear_buffer_entries-entries :
      (task_id : ℕ) (k : Kernel Dev)
      → IsSorted k.buffers
      → (l : List BufferEntry) × (clear_buffer_entries task_id k
          ≡ done tt (record k { buffers = l }))
        × IsSorted l
        × ((a : ℕ) → entry_at a l ≡ unless_owned task_id (entry_at a k.buffers))
  unfolding clear_buffer_entries
  clear_buffer_entries-entries task_id k s = (
    clear_owner task_id k.buffers,
    refl,
    clear_owner-IsSorted task_id k.buffers s,
    λ a. entry_at-clear_owner task_id a k.buffers s,
  )
