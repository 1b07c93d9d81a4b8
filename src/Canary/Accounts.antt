-- ===== src/Canary/Accounts.antt =====
-- Every diff that `enqueue` accepts is in the queue, delivered or a dead letter.
use mathlib.Core.Path.{subst}
use dbirth.Base.{
  ℕ, ◌+◌, ◌≤◌, ◌≡◌, sym, ap, ◌∙◌, Bool, Option, none, some, List, [], ◌∷◌, if◌then◌else◌, leb,
  length, arith, Bool-cases, inl, inr, length-append, leb→lt,
}
use dbirth.Canary.Metrics.{inc_requests}
use dbirth.Canary.Client.Sending.{Attempt, dispatch}
use dbirth.Canary.Client.{CanaryClient, with_metrics, enqueue}
use dbirth.Canary.Client.Acquiring.{
  Round, acquire_batch, after_dispatch, after_acquire, process_next_batch,
}
use dbirth.Canary.Dispatch.{Settles, dispatch-Settles}
use dbirth.Canary.Queue.{Took, TookAtLast, rounds_took}

-- What happens to a client: a diff is offered, or the writer processes a batch.
pub data Event (D : Type 0) : Type 0 where
  offered : D → Event D
  processed : Bool → List Round → (ℕ → ℕ) → (ℕ → Attempt) → Event D

module _ {D : Type 0} where
  abbrev processed_count : Option (Bool × CanaryClient D) → Option (ℕ × CanaryClient D)
  processed_count none = none
  processed_count (some (_, c)) = some (0, c)

  -- one event: how many diffs were accepted; none where the writer is still waiting
  unfoldable pub handle : Event D → CanaryClient D → Option (ℕ × CanaryClient D)
  handle (offered d) c = let (accepted, c') = enqueue d c in some (if accepted then 1 else 0, c')
  handle (processed block rounds jitter attempts) c =
      processed_count (process_next_batch block rounds jitter attempts c)

  abbrev added : ℕ → Option (ℕ × CanaryClient D) → Option (ℕ × CanaryClient D)
  added n none = none
  added n (some (m, c)) = some (n + m, c)

  abbrev followed :
      Option (ℕ × CanaryClient D)
      → (CanaryClient D → Option (ℕ × CanaryClient D))
      → Option (ℕ × CanaryClient D)
  followed none rest = none
  followed (some (n, c)) rest = added n (rest c)

  unfoldable pub run : List (Event D) → CanaryClient D → Option (ℕ × CanaryClient D)
  run [] c = some (0, c)
  run (event ∷ events) c = followed (handle event c) (run events)

  abbrev pub total : CanaryClient D → ℕ
  total c = c.metrics.success_total + c.metrics.dead_letter_total + length c.queue

  abbrev pub IsBounded : CanaryClient D → Type 0
  IsBounded c = length c.queue ≤ c.queue_capacity

  -- The diffs that were accepted have been added, and the queue keeps its bound.
  pub record Accounts (accepted : ℕ) (c c' : CanaryClient D) : Type 0 where
    pub accounted : total c' ≡ total c + accepted
    pub bounded : IsBounded c → IsBounded c'

  abbrev AccountsFor : CanaryClient D → Option (ℕ × CanaryClient D) → Type 0
  AccountsFor c none = Unit
  AccountsFor c (some (n, c')) = Accounts n c c'

  enqueue-Accounts :
      (d : D) (c : CanaryClient D)
      → let (accepted, c') = enqueue d c in Accounts (if accepted then 1 else 0) c c'
  unfolding enqueue
  enqueue-Accounts d c = elim (Bool-cases (leb c.queue_capacity (length c.queue))) [
    | inl e ↦ rw (e, enqueue) (record { accounted = omega arith; bounded = λ b. b })
    | inr e ↦
        let room = leb→lt c.queue_capacity (length c.queue) e in
        let longer = length-append c.queue (d ∷ []) in
        rw (e, enqueue)
          (record { accounted = omega (arith, longer); bounded = λ b. omega (arith, longer, room) })
  ]

  abbrev AccountsNone : CanaryClient D → Option (Bool × CanaryClient D) → Type 0
  AccountsNone c none = Unit
  AccountsNone c (some (_, c')) = Accounts 0 c c'

  idle-Accounts : (c c' : CanaryClient D) → Took none c c' → Accounts 0 c c'
  idle-Accounts c c' (q, k) = record {
    accounted = omega (arith, ap length q, k.success, k.dead);
    bounded = λ b. omega (arith, b, ap length q, k.capacity);
  }

  empty-Accounts : (c c' : CanaryClient D) → Took (some []) c c' → Accounts 0 c c'
  empty-Accounts c c' (q, n, k) = idle-Accounts c c' (q, k)

  batch-Accounts :
      (batch : List D) (c c' c'' : CanaryClient D)
      → Took (some batch) c c'
      → Settles batch 1 (with_metrics inc_requests c') c''
      → Accounts 0 c c''
  batch-Accounts batch c c' c'' (q, n, k) s =
      let parts : length batch + length c'.queue ≡ length c.queue =
        sym (length-append batch c'.queue) ∙ ap length q in
      record {
        accounted = omega (arith, ap length s.queue, parts, s.accounted, k.success, k.dead);
        bounded = λ b. omega (arith, b, ap length s.queue, parts, s.capacity, k.capacity);
      }

  dispatch-Accounts :
      (jitter : ℕ → ℕ) (attempts : ℕ → Attempt) (batch : List D) (c c' : CanaryClient D)
      → Took (some batch) c c'
      → AccountsNone c (after_dispatch (dispatch jitter attempts batch c'))
  dispatch-Accounts jitter attempts batch c c' t =
      let (c'', ended, s) = dispatch-Settles jitter attempts batch c' in
      subst (λ r. AccountsNone c (after_dispatch r)) (sym ended) (batch-Accounts batch c c' c'' t s)

  acquired-Accounts :
      (jitter : ℕ → ℕ) (attempts : ℕ → Attempt) (c : CanaryClient D)
      (r : Option (Option (List D) × CanaryClient D))
      → TookAtLast c r
      → AccountsNone c (after_acquire jitter attempts r)
  acquired-Accounts jitter attempts c none t = tt
  acquired-Accounts jitter attempts c (some (none, c')) t = idle-Accounts c c' t
  acquired-Accounts jitter attempts c (some (some [], c')) t = empty-Accounts c c' t
  acquired-Accounts jitter attempts c (some (some (d ∷ ds), c')) t =
      dispatch-Accounts jitter attempts (d ∷ ds) c c' t

  process-Accounts :
      (block : Bool) (rounds : List Round) (jitter : ℕ → ℕ) (attempts : ℕ → Attempt)
      (c : CanaryClient D)
      → AccountsNone c (process_next_batch block rounds jitter attempts c)
  unfolding process_next_batch
  process-Accounts block rounds jitter attempts c =
      acquired-Accounts jitter attempts c (acquire_batch block rounds c)
        (rounds_took block rounds c)

  process_handled :
      (c : CanaryClient D) (r : Option (Bool × CanaryClient D))
      → AccountsNone c r
      → AccountsFor c (processed_count r)
  process_handled c none h = tt
  process_handled c (some (_, c')) h = h

  handle-Accounts : (event : Event D) (c : CanaryClient D) → AccountsFor c (handle event c)
  unfolding handle
  handle-Accounts (offered d) c = enqueue-Accounts d c
  handle-Accounts (processed block rounds jitter attempts) c =
      process_handled c (process_next_batch block rounds jitter attempts c)
        (process-Accounts block rounds jitter attempts c)

  Accounts-trans :
      (m n : ℕ) (a b c : CanaryClient D) → Accounts m a b → Accounts n b c → Accounts (m + n) a c
  Accounts-trans m n a b c p q = record {
    accounted = omega (arith, p.accounted, q.accounted);
    bounded = λ h. q.bounded (p.bounded h);
  }

  added-Accounts :
      (n : ℕ) (c c' : CanaryClient D) (r : Option (ℕ × CanaryClient D))
      → Accounts n c c'
      → AccountsFor c' r
      → AccountsFor c (added n r)
  added-Accounts n c c' none p q = tt
  added-Accounts n c c' (some (m, c'')) p q = Accounts-trans n m c c' c'' p q

  followed-Accounts :
      (events : List (Event D)) (c : CanaryClient D) (r : Option (ℕ × CanaryClient D))
      → AccountsFor c r
      → ((c' : CanaryClient D) → AccountsFor c' (run events c'))
      → AccountsFor c (followed r (run events))
  followed-Accounts events c none h rest = tt
  followed-Accounts events c (some (n, c')) h rest =
      added-Accounts n c c' (run events c') h (rest c')

  events_account : (events : List (Event D)) (c : CanaryClient D) → AccountsFor c (run events c)
  unfolding run
  events_account [] c = record { accounted = omega arith; bounded = λ b. b }
  events_account (event ∷ events) c =
      followed-Accounts events c (handle event c) (handle-Accounts event c)
        (λ c'. events_account events c')

  -- Over any sequence of enqueues and of batches, with any failures, breaker and bucket between
  -- them, the diffs that were accepted are, counted once each, in the queue, delivered or dead
  -- letters; and the queue never exceeds its capacity.
  pub run_accounts :
      (events : List (Event D)) (accepted : ℕ) (c c' : CanaryClient D)
      → run events c ≡ some (accepted, c')
      → IsBounded c
      → (total c' ≡ total c + accepted) × IsBounded c'
  run_accounts events accepted c c' e b =
      let a : Accounts accepted c c' = subst (AccountsFor c) e (events_account events c) in
      (a.accounted, a.bounded b)
