-- ===== src/Message/Fifo.antt =====
-- Sequences of post_message and get_message against an abstract queue.
use sofie_os.Base.{
  ℕ, suc, ◌+◌, ◌≤◌, ◌<◌, ◌≡◌, ◌≢◌, ◌⊎◌, sym, subst, ap, ◌∙◌, Option, some, none, List, [], ◌∷◌,
  ◌++◌, length, length-append, arith, List-cases, inl, inr, some-injective, All,
}
use sofie_os.Word.{word_size, add32, sub32, sub32_fits}
use sofie_os.Metal.{Metal}
use sofie_os.Kernel.{Kernel, Cmd, done, pure, ◌>>=◌, ◌>>◌}
use sofie_os.Umalloc.Merge.{add32_fits}
use sofie_os.Message.{post_message, get_message}
use sofie_os.Message.Rest.{Resting}
use sofie_os.Message.Queue.{get_message-takes, post_message-appends}

-- A call for one task's queue.
pub data Call : Type 0 where
  post : ℕ → Call
  fetch : Call

-- The specification: a call to fetch takes the oldest message, and blocks, here `none`, if there is
-- none. The result is the messages that were fetched, in order, and those that are left.
abbrev pub fetched : ℕ → Option (List ℕ × List ℕ) → Option (List ℕ × List ℕ)
fetched m none = none
fetched m (some (outs, left)) = some (m ∷ outs, left)

abbrev pub fifo : List ℕ → List Call → Option (List ℕ × List ℕ)
fifo queue [] = some ([], queue)
fifo queue (post m ∷ rest) = fifo (queue ++ m ∷ []) rest
fifo [] (fetch ∷ rest) = none
fifo (m ∷ queue) (fetch ∷ rest) = fetched m (fifo queue rest)

-- malloc succeeds for every message that is posted.
abbrev pub Supplied : List Call → List ℕ → Type 0
Supplied [] pool = Unit {0}
Supplied (post m ∷ rest) [] = ⊥
Supplied (post m ∷ rest) (node ∷ pool) = (node ≢ 0) × Supplied rest pool
Supplied (fetch ∷ rest) pool = Supplied rest pool

-- The header of a message that is posted lies outside the words of the queue at `a`.
abbrev pub IsApart : ℕ → Call → Type 0
IsApart a (post m) = (sub32 m 8 + 4 + 4 ≤ a + 68) ⊎ (a + 84 ≤ sub32 m 8 + 4)
IsApart a fetch = Unit {0}

fetched-some :
    (m : ℕ) (r : Option (List ℕ × List ℕ)) (outs left : List ℕ)
    → fetched m r ≡ some (outs, left)
    → (outs' : List ℕ) × (r ≡ some (outs', left)) × (m ∷ outs' ≡ outs)
fetched-some m none outs left e = absurd cc
fetched-some m (some (o, l)) outs left e =
    let same = some-injective e in
    (o, ap (λ x. some (o, x)) (ap (λ p. p.1) same), ap (λ p. p.0) same)

module _ {Dev : Type 0} ⦃metal : Metal Dev⦄ where
  -- The calls one after the other; the messages that were fetched, in order.
  unfoldable pub calls : ℕ → ℕ → List Call → Cmd (Kernel Dev) (List ℕ)
  calls rounds tid [] = pure []
  calls rounds tid (post m ∷ rest) = do post_message (suc rounds) tid m; calls rounds tid rest
  calls rounds tid (fetch ∷ rest) = do
    m ← get_message (suc rounds) tid
    later ← calls rounds tid rest
    pure (m ∷ later)

  -- On a queue at rest whose semaphore counts its messages, where malloc succeeds for every message,
  -- the messages' headers lie outside the queue's words and the semaphore's word does not overflow: any
  -- sequence of posting and fetching in which the specification never blocks runs to its end without
  -- sleeping, fetches the messages that the specification fetches, in the same order, and leaves the
  -- queue at rest with the messages that the specification leaves, and its semaphore counting them.
  pub calls-fifo :
      (rounds tid i a : ℕ) (cs : List Call) (queue outs left : List ℕ) (k : Kernel Dev)
      → Resting k tid i a queue (length queue)
      → tid < word_size
      → Supplied cs k.mallocs
      → All (IsApart a) cs
      → length queue + length cs < word_size
      → fifo queue cs ≡ some (outs, left)
      → (k' : Kernel Dev) × (calls rounds tid cs k ≡ done outs k')
        × Resting k' tid i a left (length left)
  unfolding calls
  calls-fifo rounds tid i a [] queue outs left k r small supply apart fits e =
      let same = some-injective e in
      (
        k,
        ap (λ p. done p.0 k) same,
        subst (λ q. Resting k tid i a q (length q)) (ap (λ p. p.1) same) r,
      )
  calls-fifo rounds tid i a (post m ∷ cs) queue outs left k r small supply apart fits e =
      elim (List-cases k.mallocs) [
        | inl none_left ↦ absurd (subst (λ p. Supplied (post m ∷ cs) p) none_left supply)
        | inr (node, pool, more) ↦
            let (got, supply') = subst (λ p. Supplied (post m ∷ cs) p) more supply in
            let (k1, e1, r1, owner, frame, same) =
              post_message-appends rounds tid i a m (length queue) node queue pool k r more got
                small apart.0 in
            let one_more : add32 (length queue) 1 ≡ length (queue ++ m ∷ []) =
              add32_fits (length queue) 1 (omega arith) ∙ sym (length-append queue (m ∷ [])) in
            let (k', run, r') =
              calls-fifo rounds tid i a cs (queue ++ m ∷ []) outs left k1
                (subst (λ v. Resting k1 tid i a (queue ++ m ∷ []) v) one_more r1) small
                (subst (λ p. Supplied cs p) (sym same) supply') apart.1
                (omega (arith, length-append queue (m ∷ []))) e in
            (k', rw e1 run, r')
      ]
  calls-fifo rounds tid i a (fetch ∷ cs) [] outs left k r small supply apart fits e = absurd cc
  calls-fifo rounds tid i a (fetch ∷ cs) (m ∷ queue) outs left k r small supply apart fits e =
      let (k1, e1, r1, frame, same) =
        get_message-takes rounds tid i a m (length (m ∷ queue)) queue k r (omega arith)
          (omega arith) in
      let (outs', rest, all) = fetched-some m (fifo queue cs) outs left e in
      let one_less : sub32 (length (m ∷ queue)) 1 ≡ length queue =
        sub32_fits (length (m ∷ queue)) 1 (omega arith) (omega arith) ∙ omega arith in
      let (k', run, r') =
        calls-fifo rounds tid i a cs queue outs' left k1
          (subst (λ v. Resting k1 tid i a queue v) one_less r1) small
          (subst (λ p. Supplied cs p) (sym same) supply) apart.1 (omega arith) rest in
      (k', rw (e1, run) (ap (λ o. done o k') all), r')
