-- ===== src/Trap/Closes.antt =====
-- The parts of the kernel that switch PMP regions off and open none.
use sofie_os.Base.{
  ℕ, ◌≡◌, ◌≢◌, refl, sym, subst, ap, ◌∙◌, Bool, true, false, ◌==◌, if◌then◌else◌, arith, Bool-cases,
  inl, inr,
}
use sofie_os.Word.{add32}
use sofie_os.Metal.{Metal}
use sofie_os.Pmp.{Pmp, clear_buffer_access}
use sofie_os.Kernel.{
  Task, Stack, Kernel, Cmd, done, panicked, fault, and_then-done, done-state, ◌>>=◌, ◌>>◌, modify,
  current_task, update_current, malloc, get,
}
use sofie_os.Buffer.{remove_buffer_entry, has_address}
use sofie_os.Stack.{task_expand_stack, task_shrink_stack, top_stack, copy_bytes, drop_between}

-- The second state of the PMP is made from the first by clear_buffer_access alone.
pub data Closed {Dev : Type 0} ⦃metal : Metal Dev⦄ (p : Pmp Dev) : Pmp Dev → Type 0 where
  unchanged : Closed p p
  cleared : (address : ℕ) (q : Pmp Dev) → Closed p q → Closed p (clear_buffer_access address q)

module _ {Dev : Type 0} ⦃metal : Metal Dev⦄ where
  pub Closed-trans : (p q r : Pmp Dev) → Closed p q → Closed q r → Closed p r
  Closed-trans p q r c unchanged = c
  Closed-trans p q r c (cleared address s d) = cleared address s (Closed-trans p q s c d)

module _ {Dev : Type 0} ⦃metal : Metal Dev⦄ where
  -- Wherever the command comes to an end, it has opened nothing.
  abbrev pub ClosesOnly : {A : Type 0} → Cmd (Kernel Dev) A → Type 0
  ClosesOnly {A} c = (k k' : Kernel Dev) (a : A) → c k ≡ done a k' → Closed k.pmp k'.pmp

  pub bind-ClosesOnly :
      {A B : Type 0} (c : Cmd (Kernel Dev) A) (f : A → Cmd (Kernel Dev) B)
      → ClosesOnly c
      → ((a : A) → ClosesOnly (f a))
      → ClosesOnly (c >>= f)
  bind-ClosesOnly c f p q k k' b run =
      let (a, k1, first, second) = and_then-done (c k) f b k' run in
      Closed-trans k.pmp k1.pmp k'.pmp (p k k1 a first) (q a k1 k' b second)

  then-ClosesOnly :
      {A B : Type 0} (c : Cmd (Kernel Dev) A) (d : Cmd (Kernel Dev) B)
      → ClosesOnly c
      → ClosesOnly d
      → ClosesOnly (c >> d)
  then-ClosesOnly c d p q = bind-ClosesOnly c (λ _. d) p (λ _. q)

  -- A command that leaves the PMP alone.
  pub kept-ClosesOnly :
      {A : Type 0} (c : Cmd (Kernel Dev) A)
      → ((k k' : Kernel Dev) (a : A) → c k ≡ done a k' → k'.pmp ≡ k.pmp)
      → ClosesOnly c
  kept-ClosesOnly c same k k' a run = subst (Closed k.pmp) (sym (same k k' a run)) unchanged

  current_task-ClosesOnly : ClosesOnly current_task
  current_task-ClosesOnly = kept-ClosesOnly current_task (λ k k' a run. ground (arith, run))

  update_current-ClosesOnly : (f : Task → Task) → ClosesOnly (update_current f)
  update_current-ClosesOnly f =
      kept-ClosesOnly (update_current f) (λ k k' a run. ground (arith, run))

  malloc-ClosesOnly : ClosesOnly malloc
  malloc-ClosesOnly = kept-ClosesOnly malloc (λ k k' a run. ground (arith, run))

  top_stack-ClosesOnly : (t : Task) → ClosesOnly (top_stack t)
  unfolding top_stack
  top_stack-ClosesOnly t = kept-ClosesOnly (top_stack t) (λ k k' a run. ground (arith, run))

  copy_bytes-ClosesOnly : (src dst stop : ℕ) → ClosesOnly (copy_bytes src dst stop)
  unfolding copy_bytes
  copy_bytes-ClosesOnly src dst stop =
      kept-ClosesOnly (copy_bytes src dst stop) (λ k k' a run. ground (arith, run))

  clear-ClosesOnly :
      (address : ℕ)
      → ClosesOnly (modify (λ k. record k { pmp = clear_buffer_access address k.pmp }))
  clear-ClosesOnly address k k' a run =
      subst (λ (z : Kernel Dev). Closed k.pmp z.pmp) (done-state tt a _ k' run)
        (cleared address k.pmp unchanged)

  fails-ClosesOnly :
      {A : Type 0} (c : Cmd (Kernel Dev) A)
      → ((k k' : Kernel Dev) (a : A) → c k ≢ done a k')
      → ClosesOnly c
  fails-ClosesOnly c never k k' a run = absurd (never k k' a run)

  if-ClosesOnly :
      {A : Type 0} (b : Bool) (c d : Cmd (Kernel Dev) A)
      → ClosesOnly c
      → ClosesOnly d
      → ClosesOnly (if b then c else d)
  if-ClosesOnly true c d p q = p
  if-ClosesOnly false c d p q = q

  remove_buffer_entry-ClosesOnly : (address : ℕ) → ClosesOnly (remove_buffer_entry address)
  unfolding remove_buffer_entry
  remove_buffer_entry-ClosesOnly address k k' a run =
      elim (Bool-cases (has_address address k.buffers)) [
        | inl e ↦
            subst (Closed k.pmp) {x = clear_buffer_access address k.pmp} {y = k'.pmp}
              (ground (arith, e, run)) (cleared address k.pmp unchanged)
        | inr e ↦ subst (Closed k.pmp) {x = k.pmp} {y = k'.pmp} (ground (arith, e, run)) unchanged
      ]

  pub task_expand_stack-ClosesOnly : ClosesOnly task_expand_stack
  unfolding task_expand_stack
  task_expand_stack-ClosesOnly = bind-ClosesOnly current_task _ current_task-ClosesOnly (λ t.
      bind-ClosesOnly malloc _ malloc-ClosesOnly (λ n.
        if-ClosesOnly (n == 0) panicked _ (fails-ClosesOnly panicked (λ k k' a e. absurd cc)) (
          bind-ClosesOnly malloc _ malloc-ClosesOnly (λ node.
            if-ClosesOnly (node == 0) (λ _. fault) _
              (fails-ClosesOnly (λ _. fault) (λ k k' a e. absurd cc))
              (bind-ClosesOnly (top_stack t) _ (top_stack-ClosesOnly t) (λ old.
                bind-ClosesOnly _ _ (copy_bytes-ClosesOnly _ _ _) (λ last.
                  bind-ClosesOnly _ _ (update_current-ClosesOnly _) (λ u. clear-ClosesOnly _))))))))

  modify-ClosesOnly :
      (f : Kernel Dev → Kernel Dev) → ((k : Kernel Dev) → (f k).pmp ≡ k.pmp) → ClosesOnly (modify f)
  modify-ClosesOnly f same =
      kept-ClosesOnly (modify f)
        (λ k k' a run. sym (ap (λ (z : Kernel Dev). z.pmp) (done-state tt a (f k) k' run)) ∙ same k)

  get-ClosesOnly : ClosesOnly get
  get-ClosesOnly = kept-ClosesOnly get (λ k k' a run. ground (arith, run))

  -- The state without the entries inside a stack.
  abbrev dropped : Stack → Kernel Dev → Kernel Dev
  dropped s k = record k { buffers = drop_between s.bottom (add32 s.bottom s.length) k.buffers }

  pub task_shrink_stack-ClosesOnly : ClosesOnly task_shrink_stack
  unfolding task_shrink_stack
  task_shrink_stack-ClosesOnly =
      let update = update_current-ClosesOnly in
      bind-ClosesOnly current_task _ current_task-ClosesOnly (λ t.
        bind-ClosesOnly (top_stack t) _ (top_stack-ClosesOnly t) (λ top.
          then-ClosesOnly _ _ (update _) (
            then-ClosesOnly _ _ (modify-ClosesOnly (dropped top) (λ k. refl)) (
              then-ClosesOnly _ _ (update _) (
                then-ClosesOnly _ _ (update _) (
                  bind-ClosesOnly current_task _ current_task-ClosesOnly (λ u.
                    bind-ClosesOnly (top_stack u) _ (top_stack-ClosesOnly u) (λ below.
                      then-ClosesOnly _ _ (update _) (
                        if-ClosesOnly (u.usp_top == 0) _ _
                          (then-ClosesOnly _ _ (remove_buffer_entry-ClosesOnly _)
                            (bind-ClosesOnly get _ get-ClosesOnly (λ g. update _)))
                          (update _))))))))))
