-- ===== src/Canary/Retries.antt =====
-- One failure of `_dispatch` that is taken up again: the session, the delay, the counters.
use dbirth.Base.{
  ℕ, zero, suc, ◌+◌, ◌-◌, ◌≤◌, ◌<◌, ◌≡◌, ◌⊎◌, inl, inr, refl, sym, ap, ◌∙◌, Bool, true, false, ◌&&◌,
  ◌||◌, Option, none, some, List, [], ◌∷◌, ◌++◌, leb, length, arith, Bool-cases, min, ◌==◌, leb→lt,
}
use dbirth.Base.Result.{Result, ok, err}
use dbirth.Canary.TokenBucket.{Duration, ticks}
use dbirth.Canary.CircuitBreaker.{record_failure}
use dbirth.Canary.Session.{SessionManager, invalidate}
use dbirth.Canary.RetryPolicy.{RetryPolicy, item, max_attempts, next_delay}
use dbirth.Canary.Metrics.{inc_retry, set_circuit_state}
use dbirth.Canary.Client.Sending.{
  SendError, is_session_error, is_retriable, drop_session, check_session, handle_session_error,
  retry, gives_up,
}
use dbirth.Canary.Client.{CanaryClient, wait}

item_in_range : (i : ℕ) (xs : List ℕ) → i < length xs → (x : ℕ) × (item i xs ≡ some x)
unfolding item
item_in_range i [] h = absurd (omega arith)
item_in_range zero (x ∷ xs) h = (x, refl)
item_in_range (suc i) (x ∷ xs) h = item_in_range i xs (omega arith)

-- A policy has a delay for every attempt.
pub next_delay_total :
    (jitter : ℕ → ℕ) (attempt : ℕ) (p : RetryPolicy)
    → (delay : ℕ) × (next_delay jitter attempt p ≡ some delay)
unfolding next_delay
next_delay_total jitter attempt p = elim (Bool-cases (leb attempt 1)) [
  | inl e ↦ rw (e, next_delay) (0, refl)
  | inr e ↦ elim (Bool-cases (leb (length p.limits) 0)) [
    | inl e' ↦ (0, ground arith)
    | inr e' ↦
        let (x, found) =
          item_in_range (min (attempt - 2) (length p.limits - 1)) p.limits
            (omega (arith, leb→lt (length p.limits) 0 e')) in
        (jitter x, ground (arith, found))
  ]
]

-- The dispatch goes on after this error, as long as attempts are left.
abbrev pub goes_on : Bool → SendError → Bool
goes_on session e = is_retriable e || (session && is_session_error e)

abbrev pub is_present : Option SessionManager → Bool
is_present none = false
is_present (some _) = true

pub gives_up_last :
    (attempt : ℕ) (b : Bool) (p : RetryPolicy)
    → max_attempts p ≤ attempt
    → gives_up attempt b p ≡ true
gives_up_last attempt b p h = ground arith

pub Result-cases : (r : Result SendError (Unit {0})) → (r ≡ ok tt) ⊎ ((e : SendError) × (r ≡ err e))
Result-cases (ok u) = inl refl
Result-cases (err e) = inr (e, refl)

module _ {D : Type 0} where
  abbrev pub has_session : CanaryClient D → Bool
  has_session c = is_present c.session_manager

  -- What n tries that were taken up again leave behind.
  pub record Retried (n : ℕ) (c c' : CanaryClient D) : Type 0 where
    pub retried : c'.metrics.retry_total ≡ c.metrics.retry_total + n
    pub success : c'.metrics.success_total ≡ c.metrics.success_total
    pub dead : c'.metrics.dead_letter_total ≡ c.metrics.dead_letter_total
    pub failure : c'.metrics.failure_total ≡ c.metrics.failure_total
    pub letters : c'.dead_letters ≡ c.dead_letters
    pub handler : c'.has_dead_letter_handler ≡ c.has_dead_letter_handler
    pub queue : c'.queue ≡ c.queue
    pub policy : c'.retry_policy ≡ c.retry_policy
    pub session : has_session c' ≡ has_session c
    pub capacity : c'.queue_capacity ≡ c.queue_capacity
    pub batch_tags : c'.max_batch_tags ≡ c.max_batch_tags

  pub Retried-trans :
      (m n : ℕ) (a b c : CanaryClient D) → Retried m a b → Retried n b c → Retried (m + n) a c
  Retried-trans m n a b c p q = record {
    retried = omega (arith, p.retried, q.retried);
    success = q.success ∙ p.success;
    dead = q.dead ∙ p.dead;
    failure = q.failure ∙ p.failure;
    letters = q.letters ∙ p.letters;
    handler = q.handler ∙ p.handler;
    queue = q.queue ∙ p.queue;
    policy = q.policy ∙ p.policy;
    session = q.session ∙ p.session;
    capacity = q.capacity ∙ p.capacity;
    batch_tags = q.batch_tags ∙ p.batch_tags;
  }

  pub Retried-refl : (c : CanaryClient D) → Retried 0 c c
  Retried-refl c = record {
    retried = omega arith;
    success = refl;
    dead = refl;
    failure = refl;
    letters = refl;
    handler = refl;
    queue = refl;
    policy = refl;
    session = refl;
    capacity = refl;
    batch_tags = refl;
  }

  Retried-invalidated :
      (m : SessionManager) (c : CanaryClient D)
      → c.session_manager ≡ some m
      → Retried 0 c (record c { session_manager = some (invalidate m) })
  Retried-invalidated m c e = record {
    retried = omega arith;
    success = refl;
    dead = refl;
    failure = refl;
    letters = refl;
    handler = refl;
    queue = refl;
    policy = refl;
    session = ap is_present (sym e);
    capacity = refl;
    batch_tags = refl;
  }

  Retried-slept :
      (sleeps : List Duration) (c : CanaryClient D) → Retried 0 c (record c { sleeps = sleeps })
  Retried-slept sleeps c = record {
    retried = omega arith;
    success = refl;
    dead = refl;
    failure = refl;
    letters = refl;
    handler = refl;
    queue = refl;
    policy = refl;
    session = refl;
    capacity = refl;
    batch_tags = refl;
  }

  Retried-wait : (d : Duration) (c : CanaryClient D) → Retried 0 c (wait d c)
  Retried-wait d c = elim (Bool-cases (d.parts == 0)) [
    | inl e ↦ rw (e) (Retried-refl c)
    | inr e ↦ rw (e) (Retried-slept (c.sleeps ++ d ∷ []) c)
  ]

  drop_step :
      (b : Bool) (m : SessionManager) (c : CanaryClient D)
      → c.session_manager ≡ some m
      → let (invalidated, c') = drop_session b m c in (invalidated ≡ b) × Retried 0 c c'
  drop_step true m c h = (refl, Retried-invalidated m c h)
  drop_step false m c h = (refl, Retried-refl c)

  check_step :
      (e : SendError) (s : Option SessionManager) (c : CanaryClient D)
      → c.session_manager ≡ s
      → let (invalidated, c') = check_session e s c in
        (invalidated ≡ (is_present s && is_session_error e)) × Retried 0 c c'
  check_step e none c h = (refl, Retried-refl c)
  check_step e (some m) c h = drop_step (is_session_error e) m c h

  pub session_step :
      (e : SendError) (c : CanaryClient D)
      → let (invalidated, c') = handle_session_error e c in
        (invalidated ≡ (has_session c && is_session_error e)) × Retried 0 c c'
  unfolding handle_session_error
  session_step e c = check_step e c.session_manager c refl

  abbrev counted : ℕ → CanaryClient D → CanaryClient D
  counted now c =
      let circuit = record_failure now c.circuit in
      record c {
        metrics = set_circuit_state circuit.state (inc_retry c.metrics);
        circuit = circuit;
      }

  abbrev waited : ℕ → ℕ → CanaryClient D → CanaryClient D
  waited delay now c = wait (ticks delay) (counted now c)

  Retried-counted : (now : ℕ) (c : CanaryClient D) → Retried 1 c (counted now c)
  Retried-counted now c = record {
    retried = refl;
    success = refl;
    dead = refl;
    failure = refl;
    letters = refl;
    handler = refl;
    queue = refl;
    policy = refl;
    session = refl;
    capacity = refl;
    batch_tags = refl;
  }

  Retried-waited : (delay now : ℕ) (c : CanaryClient D) → Retried 1 c (waited delay now c)
  Retried-waited delay now c =
      Retried-trans 1 0 c (counted now c) (waited delay now c) (Retried-counted now c)
        (Retried-wait (ticks delay) (counted now c))

  pub retry_step :
      (jitter : ℕ → ℕ) (attempt now : ℕ) (c : CanaryClient D)
      → (c' : CanaryClient D) × (retry jitter attempt now c ≡ some c') × Retried 1 c c'
  unfolding retry
  retry_step jitter attempt now c =
      let (delay, e) = next_delay_total jitter (attempt + 1) c.retry_policy in
      (waited delay now c, rw (e, retry) refl, Retried-waited delay now c)
