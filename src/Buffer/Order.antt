-- ===== src/Buffer/Order.antt =====
-- The order of the list of buffer entries of kernel/src/buffer.c.
use sofie_os.Base.{
  ℕ, ◌≤◌, ◌<◌, ◌≡◌, refl, some, none, List, [], ◌∷◌, false, arith, All, All-mono, leb,
  if◌then◌else◌,
}
use sofie_os.Kernel.{BufferEntry}
use sofie_os.Buffer.Defs.{insert_entry, clear_owner, remove_first, has_address}

abbrev pub Above : ℕ → List BufferEntry → Type 0
Above a l = All (λ (e : BufferEntry). a < e.address) l

-- Ascending, with no address twice.
abbrev pub IsSorted : List BufferEntry → Type 0
IsSorted [] = Unit {0}
IsSorted (e ∷ rest) = Above e.address rest × IsSorted rest

pub Above-mono : (a b : ℕ) (l : List BufferEntry) → a ≤ b → Above b l → Above a l
Above-mono a b l h = All-mono _ _ (λ e p. omega arith) l

pub has_address-Above : (a : ℕ) (l : List BufferEntry) → Above a l → has_address a l ≡ false
unfolding has_address
has_address-Above a [] h = refl
has_address-Above a (p ∷ rest) h = ground (arith, has_address-Above a rest h.1)

-- Insertion at the place of the address.
unfoldable pub insert_sorted : BufferEntry → List BufferEntry → List BufferEntry
insert_sorted e [] = e ∷ []
insert_sorted e (p ∷ rest) =
    if leb p.address e.address then p ∷ insert_sorted e rest else e ∷ p ∷ rest

pub insert_entry_lem :
    (e : BufferEntry) (l : List BufferEntry)
    → IsSorted l
    → insert_entry e l ≡ (if has_address e.address l then none else some (insert_sorted e l))
unfolding insert_entry insert_sorted has_address
insert_entry_lem e [] s = refl
insert_entry_lem e (p ∷ rest) s = ground (
  arith,
  insert_entry_lem e rest s.1,
  has_address-Above e.address rest,
  Above-mono e.address p.address rest,
)

insert_sorted-Above :
    (a : ℕ) (e : BufferEntry) (l : List BufferEntry)
    → a < e.address
    → Above a l
    → Above a (insert_sorted e l)
unfolding insert_sorted
insert_sorted-Above a e [] h s = (h, tt)
insert_sorted-Above a e (p ∷ rest) h s = ground (arith, insert_sorted-Above a e rest h s.1)

pub insert_sorted-IsSorted :
    (e : BufferEntry) (l : List BufferEntry)
    → IsSorted l
    → has_address e.address l ≡ false
    → IsSorted (insert_sorted e l)
unfolding insert_sorted has_address
insert_sorted-IsSorted e [] s n = (tt, tt)
insert_sorted-IsSorted e (p ∷ rest) s n = ground (
  arith,
  insert_sorted-IsSorted e rest s.1,
  insert_sorted-Above p.address e rest,
  Above-mono e.address p.address rest,
)

remove_first-Above : (a b : ℕ) (l : List BufferEntry) → Above a l → Above a (remove_first b l)
unfolding remove_first
remove_first-Above a b [] s = tt
remove_first-Above a b (p ∷ rest) s = ground (arith, remove_first-Above a b rest s.1)

pub remove_first-IsSorted :
    (b : ℕ) (l : List BufferEntry) → IsSorted l → IsSorted (remove_first b l)
unfolding remove_first
remove_first-IsSorted b [] s = tt
remove_first-IsSorted b (p ∷ rest) s =
    ground (arith, remove_first-IsSorted b rest s.1, remove_first-Above p.address b rest s.0)

clear_owner-Above : (a t : ℕ) (l : List BufferEntry) → Above a l → Above a (clear_owner t l)
unfolding clear_owner
clear_owner-Above a t [] s = tt
clear_owner-Above a t (p ∷ rest) s = ground (arith, clear_owner-Above a t rest s.1)

pub clear_owner-IsSorted : (t : ℕ) (l : List BufferEntry) → IsSorted l → IsSorted (clear_owner t l)
unfolding clear_owner
clear_owner-IsSorted t [] s = tt
clear_owner-IsSorted t (p ∷ rest) s =
    ground (arith, clear_owner-IsSorted t rest s.1, clear_owner-Above p.address t rest s.0)

-- Taking out the entry that was put in gives the list back.
pub remove_first-insert_sorted :
    (e : BufferEntry) (l : List BufferEntry)
    → has_address e.address l ≡ false
    → remove_first e.address (insert_sorted e l) ≡ l
unfolding remove_first insert_sorted has_address
remove_first-insert_sorted e [] n = ground arith
remove_first-insert_sorted e (p ∷ rest) n = ground (arith, remove_first-insert_sorted e rest)
