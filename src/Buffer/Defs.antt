-- ===== src/Buffer/Defs.antt =====
-- The functions of kernel/src/buffer.c. Each loop is a function on the list of entries.
use sofie_os.Base.{
  ℕ, Bool, false, ◌||◌, Option, none, some, List, [], ◌∷◌, ◌==◌, leb, if◌then◌else◌,
}
use mathlib.Core.Option
use sofie_os.Word.{add32}
use sofie_os.Metal.{Metal}
use sofie_os.Pmp.{enable_buffer_access, clear_buffer_access}
use sofie_os.Kernel.{
  BufferEntry, Kernel, Cmd, panic, ◌>>=◌, ◌>>◌, get, modify, malloc, lift_pmp, pure,
}

-- The loop of add_buffer_entry and the linking behind it: `none` if an entry has the address.
unfoldable pub insert_entry : BufferEntry → List BufferEntry → Option (List BufferEntry)
insert_entry e [] = some (e ∷ [])
insert_entry e (p ∷ rest) =
    if leb p.address e.address
    then (if p.address == e.address
        then none
        else Option.map (λ (l : List BufferEntry). p ∷ l) (insert_entry e rest))
    else some (e ∷ p ∷ rest)

-- The loop of clear_buffer_entries.
unfoldable pub clear_owner : ℕ → List BufferEntry → List BufferEntry
clear_owner task_id [] = []
clear_owner task_id (p ∷ rest) =
    if p.owner == task_id then clear_owner task_id rest else p ∷ clear_owner task_id rest

-- The loop of remove_buffer_entry: it unlinks the first entry with the address.
unfoldable pub remove_first : ℕ → List BufferEntry → List BufferEntry
remove_first address [] = []
remove_first address (p ∷ rest) =
    if p.address == address then rest else p ∷ remove_first address rest

-- Whether that loop stops at an entry.
unfoldable pub has_address : ℕ → List BufferEntry → Bool
has_address address [] = false
has_address address (p ∷ rest) = p.address == address || has_address address rest

module _ {Dev : Type 0} ⦃metal : Metal Dev⦄ where
  unfoldable pub add_buffer_entry : ℕ → ℕ → ℕ → Cmd (Kernel Dev) (Unit {0})
  add_buffer_entry address len owner = do
    new_entry ← malloc
    if new_entry == 0 then panic else do
      k ← get
      let entry : BufferEntry = record { address = address; length = len; owner = owner }
      elim (insert_entry entry k.buffers) [
        | none ↦ pure tt
        | some l ↦ do
          modify (λ s. record s { buffers = l })
          lift_pmp (enable_buffer_access address (add32 address len) 0)
      ]

  unfoldable pub clear_buffer_entries : ℕ → Cmd (Kernel Dev) (Unit {0})
  clear_buffer_entries task_id = modify (λ k. record k { buffers = clear_owner task_id k.buffers })

  unfoldable pub remove_buffer_entry : ℕ → Cmd (Kernel Dev) (Unit {0})
  remove_buffer_entry address = do
    k ← get
    if has_address address k.buffers
        then (do
          modify (λ s. record s { buffers = remove_first address s.buffers })
          modify (λ s. record s { pmp = clear_buffer_access address s.pmp }))
        else pure tt
