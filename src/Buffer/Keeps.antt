-- ===== src/Buffer/Keeps.antt =====
-- What every call of add_buffer_entry and remove_buffer_entry that comes to an end keeps.
use sofie_os.Base.{
  ℕ, ◌<◌, ◌≡◌, ◌≢◌, refl, sym, subst, ◌∙◌, List, List-cases, [], ◌∷◌, Bool-cases, inl, inr, arith,
  ◌==◌, ==→eq, not-==→ne,
}
use sofie_os.Word.{add32-lt, word_size, add32}
use sofie_os.Metal.{Metal, Lawful}
use sofie_os.Pmp.{clear_buffer_access}
use sofie_os.Pmp.Device.{IsReady}
use sofie_os.Pmp.Slots.{InTurn, enable-Ranges, clear_buffer_access-Closes}
use sofie_os.Kernel.{Kernel, done, done-state}
use sofie_os.Buffer.Defs.{has_address, add_buffer_entry, remove_first, remove_buffer_entry}
use sofie_os.Buffer.Order.{
  IsSorted, insert_sorted, insert_entry_lem, insert_sorted-IsSorted, remove_first-IsSorted,
}
use sofie_os.Buffer.Calls.{new_entry, add_buffer_entry-known}

-- The buffer entries are in order, no region of the device is locked, and the slots to use next exist.
pub record IsGuarding {Dev : Type 0} ⦃metal : Metal Dev⦄ (k : Kernel Dev) : Type 0 where
  pub sorted : IsSorted k.buffers
  pub ready : IsReady metal k.pmp.dev
  pub in_turn : InTurn k.pmp

-- From `k` to `k'` nothing changed but the memory pool, the buffer entries and the PMP.
abbrev pub OnlyBuffers : {Dev : Type 0} → Kernel Dev → Kernel Dev → Type 0
OnlyBuffers k k' = k' ≡ record k { mallocs = k'.mallocs; buffers = k'.buffers; pmp = k'.pmp }

module _ {Dev : Type 0} ⦃metal : Metal Dev⦄ (laws : Lawful metal) where
  abbrev Kept : Kernel Dev → Kernel Dev → Type 0
  Kept k k' = IsGuarding k' × OnlyBuffers k k'

  done-Kept : (k k1 k2 : Kernel Dev) → done tt k1 ≡ done tt k2 → Kept k k1 → Kept k k2
  done-Kept k k1 k2 e kept = subst (Kept k) (done-state tt tt k1 k2 e) kept

  add_buffer_entry-Kept :
      (address len owner m : ℕ) (rest : List ℕ) (k k' : Kernel Dev)
      → k.mallocs ≡ m ∷ rest
      → m ≢ 0
      → address < word_size
      → IsGuarding k
      → add_buffer_entry address len owner k ≡ done tt k'
      → Kept k k'
  unfolding add_buffer_entry
  add_buffer_entry-Kept address len owner m rest k k' e n small g run =
      elim (Bool-cases (has_address address k.buffers)) [
        | inl h ↦
            done-Kept k (record k { mallocs = rest }) k'
              (sym (add_buffer_entry-known address len owner m rest k g.sorted e n h) ∙ run)
              (record { sorted = g.sorted; ready = g.ready; in_turn = g.in_turn }, refl)
        | inr h ↦
            let entry = new_entry address len owner in
            let (q, on, ready, range, next, stack) =
              enable-Ranges laws address (add32 address len) 0 k.pmp g.ready small
                (add32-lt address len) g.in_turn.current in
            let after = record k {
              mallocs = rest;
              buffers = insert_sorted entry k.buffers;
              pmp = q;
            } in
            done-Kept k after k' (ground (arith, insert_entry_lem entry k.buffers g.sorted, on)) (
              record {
                sorted = insert_sorted-IsSorted entry k.buffers g.sorted h;
                ready = ready;
                in_turn = record { robin = ground arith; current = ground arith };
              },
              refl,
            )
      ]

  null_panics :
      (address len owner m : ℕ) (rest : List ℕ) (k k' : Kernel Dev)
      → k.mallocs ≡ m ∷ rest
      → m ≡ 0
      → add_buffer_entry address len owner k ≢ done tt k'
  unfolding add_buffer_entry
  null_panics address len owner m rest k k' e z run = ground arith

  empty_panics :
      (address len owner : ℕ) (k k' : Kernel Dev)
      → k.mallocs ≡ []
      → add_buffer_entry address len owner k ≢ done tt k'
  unfolding add_buffer_entry
  empty_panics address len owner k k' e run = ground arith

  -- A call of add_buffer_entry that comes to an end keeps the invariant and changes nothing but the memory
  -- pool, the buffer entries and the PMP.
  pub add_buffer_entry-IsGuarding :
      (address len owner : ℕ) (k k' : Kernel Dev)
      → address < word_size
      → IsGuarding k
      → add_buffer_entry address len owner k ≡ done tt k'
      → IsGuarding k' × OnlyBuffers k k'
  add_buffer_entry-IsGuarding address len owner k k' small g run = elim (List-cases k.mallocs) [
    | inl empty ↦ absurd (empty_panics address len owner k k' empty run)
    | inr (m, rest, e) ↦ elim (Bool-cases (m == 0)) [
      | inl null ↦ absurd (null_panics address len owner m rest k k' e (==→eq m 0 null) run)
      | inr node ↦
          add_buffer_entry-Kept address len owner m rest k k' e (not-==→ne m 0 node) small g run
    ]
  ]

  -- So does remove_buffer_entry.
  pub remove_buffer_entry-IsGuarding :
      (address : ℕ) (k k' : Kernel Dev)
      → IsGuarding k
      → remove_buffer_entry address k ≡ done tt k'
      → IsGuarding k' × OnlyBuffers k k'
  unfolding remove_buffer_entry
  remove_buffer_entry-IsGuarding address k k' g run =
      elim (Bool-cases (has_address address k.buffers)) [
        | inl h ↦
            let (ready, config, addr, robin, stack) =
              clear_buffer_access-Closes laws address k.pmp g.ready in
            done-Kept k
              (record k {
                buffers = remove_first address k.buffers;
                pmp = clear_buffer_access address k.pmp;
              })
              k' (sym (rw h) ∙ run)
              (
                record {
                  sorted = remove_first-IsSorted address k.buffers g.sorted;
                  ready = ready;
                  in_turn = record {
                    robin = ground (arith, g.in_turn.robin);
                    current = ground (arith, g.in_turn.current);
                  };
                },
                refl,
              )
        | inr h ↦ done-Kept k k k' (sym (rw h) ∙ run) (g, refl)
      ]
