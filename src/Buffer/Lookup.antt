-- ===== src/Buffer/Lookup.antt =====
-- The list of buffer entries of kernel/src/buffer.c as a map from addresses to entries.
use sofie_os.Base.{
  ℕ, ◌≡◌, refl, Option, some, none, List, [], ◌∷◌, false, arith, ◌==◌, if◌then◌else◌,
}
use sofie_os.Kernel.{BufferEntry}
use sofie_os.Buffer.Defs.{clear_owner, remove_first, has_address}
use sofie_os.Buffer.Order.{IsSorted, Above, insert_sorted}

-- The entry at an address.
unfoldable pub entry_at : ℕ → List BufferEntry → Option BufferEntry
entry_at a [] = none
entry_at a (p ∷ rest) = if p.address == a then some p else entry_at a rest

pub entry_at-Above : (a : ℕ) (l : List BufferEntry) → Above a l → entry_at a l ≡ none
unfolding entry_at
entry_at-Above a [] h = refl
entry_at-Above a (p ∷ rest) h = ground (arith, entry_at-Above a rest h.1)

pub entry_at_missing :
    (a : ℕ) (l : List BufferEntry) → has_address a l ≡ false → entry_at a l ≡ none
unfolding entry_at has_address
entry_at_missing a [] h = refl
entry_at_missing a (p ∷ rest) h = ground (arith, entry_at_missing a rest)

pub entry_at-insert_sorted :
    (e : BufferEntry) (a : ℕ) (l : List BufferEntry)
    → has_address e.address l ≡ false
    → entry_at a (insert_sorted e l) ≡ (if e.address == a then some e else entry_at a l)
unfolding entry_at insert_sorted has_address
entry_at-insert_sorted e a [] n = refl
entry_at-insert_sorted e a (p ∷ rest) n = ground (arith, entry_at-insert_sorted e a rest)

pub entry_at-remove_first :
    (b a : ℕ) (l : List BufferEntry)
    → IsSorted l
    → entry_at a (remove_first b l) ≡ (if b == a then none else entry_at a l)
unfolding entry_at remove_first
entry_at-remove_first b a [] s = ground arith
entry_at-remove_first b a (p ∷ rest) s =
    ground (arith, entry_at-remove_first b a rest s.1, entry_at-Above p.address rest s.0)

-- An entry that is kept.
abbrev pub unless_owned : ℕ → Option BufferEntry → Option BufferEntry
unless_owned t none = none
unless_owned t (some e) = if e.owner == t then none else some e

pub entry_at-clear_owner :
    (t a : ℕ) (l : List BufferEntry)
    → IsSorted l
    → entry_at a (clear_owner t l) ≡ unless_owned t (entry_at a l)
unfolding entry_at clear_owner
entry_at-clear_owner t a [] s = refl
entry_at-clear_owner t a (p ∷ rest) s =
    ground (arith, entry_at-clear_owner t a rest s.1, entry_at-Above p.address rest s.0)
