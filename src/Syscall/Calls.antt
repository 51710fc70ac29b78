-- ===== src/Syscall/Calls.antt =====
-- The dispatch of system calls and sys_change_owner, from kernel/src/trap.c and kernel/src/callimpl.c.
use sofie_os.Base.{
  ℕ, zero, suc, ◌+◌, ◌<◌, ◌≤◌, ◌≡◌, ◌⊎◌, refl, Bool, Bool-cases, true, false, ◌&&◌, Option, none,
  some, List, [], ◌∷◌, arith, ◌==◌, leb, ltb, if◌then◌else◌, get_elem?, length, set, inl, inr,
}
use sofie_os.Word.{sub32}
use sofie_os.Memory.{load32, store32}
use sofie_os.Metal.{Metal}
use sofie_os.Kernel.{Task, Kernel, Cmd, done, and_then, update_task}
use sofie_os.Umalloc.{minus_one, get_owner, change_owner}
use sofie_os.Syscall.{Libc, find_syscall, table_entry, syscall, syscalls, sys_change_owner, argraw}

abbrev rest_of : {A : Type 0} → List A → List A
rest_of [] = []
rest_of (x ∷ l) = l

all_some : {A : Type 0} → List (Option A) → Bool
all_some [] = true
all_some (none ∷ l) = false
all_some (some a ∷ l) = all_some l

some_at :
    {A : Type 0} (l : List (Option A)) (i : ℕ)
    → all_some l ≡ true
    → i < length l
    → (a : A) × (get_elem? l i ≡ some (some a))
unfolding all_some
some_at [] i full h = absurd (ground arith)
some_at (none ∷ l) i full h = absurd (ground arith)
some_at (some a ∷ l) zero full h = (a, refl)
some_at (some a ∷ l) (suc i) full h = some_at l i full (omega arith)

-- The task when a system call has returned `v`.
abbrev pub returned : ℕ → Task → Task
returned v t = record t { trapframe = record t.trapframe { a0 = v } }

-- Where the header of a block keeps its owner.
abbrev pub owner_word : ℕ → ℕ
owner_word address = sub32 address 8 + 4

module _ {Dev : Type 0} ⦃metal : Metal Dev⦄ where
  -- The table has a function at each number but 0.
  syscalls_full :
      (libc : Libc Dev) (rounds num : ℕ)
      → 0 < num
      → num < 17
      → (call : Cmd (Kernel Dev) ℕ) × (get_elem? (syscalls libc rounds) num ≡ some (some call))
  unfolding all_some
  syscalls_full libc rounds zero positive h = absurd (omega arith)
  syscalls_full libc rounds (suc num) positive h =
      some_at (rest_of (syscalls libc rounds)) num refl (omega arith)

  -- For every number in a7 of the current task, syscall does one of two things. If the number is one of
  -- 1 to 16, the table has a function there; syscall runs it, and when it returns its result goes to a0 of
  -- the task that made the call. Otherwise nothing is called: the task's a0 is -1 and nothing else
  -- changes.
  pub syscall-dispatches :
      (libc : Libc Dev) (rounds i : ℕ) (k : Kernel Dev) (t : Task)
      → k.current ≡ some i
      → get_elem? k.tasks i ≡ some t
      → let num = t.trapframe.a7 in
        ((1 ≤ num)
          × (num ≤ 16)
          × (call : Cmd (Kernel Dev) ℕ) × (get_elem? (syscalls libc rounds) num ≡ some (some call))
          × (syscall libc rounds k ≡ and_then (call k) (λ v. update_task i (returned v))))
        ⊎ (((num ≡ 0) ⊎ (17 ≤ num))
            × (syscall libc rounds k
                ≡ done tt (record k { tasks = set k.tasks i (returned minus_one t) })))
  unfolding syscall find_syscall table_entry
  syscall-dispatches libc rounds i k t current task =
      let num = t.trapframe.a7 in
      elim (Bool-cases (ltb 0 num && ltb num 17)) [
        | inl known ↦
            let (call, found) =
              syscalls_full libc rounds num (ground (arith, known)) (ground (arith, known)) in
            inl (
              ground (arith, known),
              ground (arith, known),
              call,
              found,
              ground (arith, current, task, known, found),
            )
        | inr unknown ↦ inr (
          elim (Bool-cases (num == 0)) [
            | inl e ↦ inl (ground (arith, e))
            | inr e ↦ inr (ground (arith, e, unknown))
          ],
          ground (arith, current, task, unknown),
        )
      ]

  -- For a current task whose id is not -1, sys_change_owner never fails. For an address in the user section
  -- whose header names the task as owner it writes the new owner into the header and returns 0; for any
  -- other address it returns -1. It changes nothing else.
  pub sys_change_owner_lem :
      (i : ℕ) (k : Kernel Dev) (t : Task)
      → k.current ≡ some i
      → get_elem? k.tasks i ≡ some t
      → t.tid < minus_one
      → let a = t.trapframe.a0 in
        let owns =
          leb k.layout.user_begin a
          && ltb a k.layout.user_end
          && load32 k.mem (owner_word a) == t.tid in
        sys_change_owner k ≡ (
          if owns
          then done 0 (record k { mem = store32 k.mem (owner_word a) t.trapframe.a1 })
          else done minus_one k)
  unfolding sys_change_owner argraw get_owner change_owner
  sys_change_owner_lem i k t current task small = ground (arith, current, task)
