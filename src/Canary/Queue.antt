-- ===== src/Canary/Queue.antt =====
-- The queue between `enqueue` and `_acquire_batch`, and what becomes of the diffs that go through it.
use mathlib.Core.Path.{subst}
use dbirth.Base.{
  ℕ, ◌≤◌, ◌≡◌, inl, inr, refl, ◌∙◌, Bool, true, false, Option, none, some, List, [], ◌∷◌, ◌++◌,
  if◌then◌else◌, ◌==◌, length, arith, Bool-cases, length-take, take-append-drop,
}
use dbirth.Canary.TokenBucket.{Duration, ticks, consume, time_until_ready}
use dbirth.Canary.CircuitBreaker.{allow, time_until_allow}
use dbirth.Canary.Metrics.{inc_throttled, inc_circuit_open, set_circuit_state}
use dbirth.Canary.Client.{CanaryClient, wait}
use dbirth.Canary.Client.Acquiring.{
  Round, Acquired, again, returns, one_token, after_bucket, after_breaker, after_queue, after_stop,
  take_batch, throttle, hold, acquire_round, pick_round, acquire_batch,
}

module _ {D : Type 0} where
  -- The counters and the limits that a step on the queue leaves alone.
  pub record Kept (c c' : CanaryClient D) : Type 0 where
    pub success : c'.metrics.success_total ≡ c.metrics.success_total
    pub dead : c'.metrics.dead_letter_total ≡ c.metrics.dead_letter_total
    pub capacity : c'.queue_capacity ≡ c.queue_capacity
    pub batch_tags : c'.max_batch_tags ≡ c.max_batch_tags

  abbrev kept_all : {c : CanaryClient D} → Kept c c
  kept_all = record { success = refl; dead = refl; capacity = refl; batch_tags = refl }

  -- What a step takes off the queue: a batch from its front, within the limit, or nothing.
  abbrev pub Took : Option (List D) → CanaryClient D → CanaryClient D → Type 0
  Took none c c' = (c'.queue ≡ c.queue) × Kept c c'
  Took (some batch) c c' =
      (batch ++ c'.queue ≡ c.queue) × (length batch ≤ c.max_batch_tags) × Kept c c'

  abbrev RoundTook : CanaryClient D → Acquired D × CanaryClient D → Type 0
  RoundTook c (again, c') = Took none c c'
  RoundTook c (returns r, c') = Took r c c'

  Took-wait : (d : Duration) (c : CanaryClient D) → Took none c (wait d c)
  Took-wait d c = elim (Bool-cases (d.parts == 0)) [
    | inl e ↦ rw (e) (refl, kept_all)
    | inr e ↦
        rw (e) (refl, record { success = refl; dead = refl; capacity = refl; batch_tags = refl })
  ]

  Kept-trans : {a b c : CanaryClient D} → Kept a b → Kept b c → Kept a c
  Kept-trans p q = record {
    success = q.success ∙ p.success;
    dead = q.dead ∙ p.dead;
    capacity = q.capacity ∙ p.capacity;
    batch_tags = q.batch_tags ∙ p.batch_tags;
  }

  -- A step that takes nothing, before one that may.
  then-Took :
      (r : Option (List D)) (a b c : CanaryClient D) → Took none a b → Took r b c → Took r a c
  then-Took none a b c (p, k) (q, l) = (q ∙ p, Kept-trans k l)
  then-Took (some batch) a b c (p, k) (q, n, l) =
      (q ∙ p, omega (arith, n, k.batch_tags), Kept-trans k l)

  then_round :
      (a b : CanaryClient D) (r : Acquired D × CanaryClient D)
      → Took none a b
      → RoundTook b r
      → RoundTook a r
  then_round a b (again, c) p q = then-Took none a b c p q
  then_round a b (returns r, c) p q = then-Took r a b c p q

  Took-throttle : (now : ℕ) (c : CanaryClient D) → Took none c (throttle now c)
  unfolding throttle
  Took-throttle now c =
      let (wait_time, bucket) = time_until_ready one_token now c.bucket in
      let c' : CanaryClient D = record c { bucket = bucket; metrics = inc_throttled c.metrics } in
      then-Took none c c' (throttle now c)
        (refl, record { success = refl; dead = refl; capacity = refl; batch_tags = refl })
        (Took-wait (if wait_time.parts == 0 then ticks 1 else wait_time) c')

  Took-hold : (now : ℕ) (c : CanaryClient D) → Took none c (hold now c)
  unfolding hold
  Took-hold now c =
      let c' : CanaryClient D = record c {
        metrics = set_circuit_state c.circuit.state (inc_circuit_open c.metrics);
      } in
      then-Took none c c' (hold now c)
        (refl, record { success = refl; dead = refl; capacity = refl; batch_tags = refl })
        (Took-wait (ticks (time_until_allow now c.circuit)) c')

  Took-take : (c : CanaryClient D) → RoundTook c (take_batch c)
  unfolding take_batch
  Took-take c = (
    take-append-drop c.max_batch_tags c.queue,
    omega (arith, length-take c.max_batch_tags c.queue),
    record { success = refl; dead = refl; capacity = refl; batch_tags = refl },
  )

  bucket_took :
      (granted : Bool) (r : Round) (c : CanaryClient D) → RoundTook c (after_bucket granted r c)
  bucket_took true r c = Took-take c
  bucket_took false r c = Took-throttle r.wait_at c

  breaker_took :
      (allowed : Bool) (r : Round) (c : CanaryClient D) → RoundTook c (after_breaker allowed r c)
  breaker_took true r c =
      let (granted, bucket) = consume one_token r.consume_at c.bucket in
      let c' : CanaryClient D = record c { bucket = bucket } in
      then_round c c' (after_bucket granted r c')
        (refl, record { success = refl; dead = refl; capacity = refl; batch_tags = refl })
        (bucket_took granted r c')
  breaker_took false r c = Took-hold r.wait_at c

  queue_took :
      (empty block : Bool) (r : Round) (c : CanaryClient D)
      → RoundTook c (after_queue empty block r c)
  queue_took true true r c = (refl, kept_all)
  queue_took true false r c = (refl, kept_all)
  queue_took false block r c =
      let (allowed, circuit) = allow r.allow_at c.circuit in
      let c' : CanaryClient D = record c { circuit = circuit } in
      then_round c c' (after_breaker allowed r c')
        (refl, record { success = refl; dead = refl; capacity = refl; batch_tags = refl })
        (breaker_took allowed r c')

  stop_took :
      (stopped block : Bool) (r : Round) (c : CanaryClient D)
      → RoundTook c (after_stop stopped block r c)
  stop_took true block r c = (refl, kept_all)
  stop_took false block r c = queue_took (length c.queue == 0) block r c

  round_took :
      (block : Bool) (r : Round) (c : CanaryClient D) → RoundTook c (acquire_round block r c)
  unfolding acquire_round
  round_took block r c = stop_took r.stopped block r c

  abbrev pub TookAtLast : CanaryClient D → Option (Option (List D) × CanaryClient D) → Type 0
  TookAtLast c none = Unit
  TookAtLast c (some (r, c')) = Took r c c'

  pick_took :
      (a : Acquired D) (rest : Option (Option (List D) × CanaryClient D)) (c c' : CanaryClient D)
      → RoundTook c (a, c')
      → TookAtLast c' rest
      → TookAtLast c (pick_round a rest c')
  pick_took again none c c' p q = tt
  pick_took again (some (r, c'')) c c' p q = then-Took r c c' c'' p q
  pick_took (returns r) rest c c' p q = p

  pub rounds_took :
      (block : Bool) (rounds : List Round) (c : CanaryClient D)
      → TookAtLast c (acquire_batch block rounds c)
  unfolding acquire_batch
  rounds_took block [] c = tt
  rounds_took block (r ∷ rounds) c =
      let step = acquire_round block r c in
      pick_took step.0 (acquire_batch block rounds step.1) c step.1 (round_took block r c)
        (rounds_took block rounds step.1)

  -- However often the breaker and the bucket hold it back, an `_acquire_batch` that returns has
  -- taken from the front of the queue, in order, at most `max_batch_tags` diffs, and has left the
  -- rest; if it returns without a batch, the queue is as it was.
  pub acquire_batch_takes :
      (block : Bool) (rounds : List Round) (c c' : CanaryClient D) (result : Option (List D))
      → acquire_batch block rounds c ≡ some (result, c')
      → Took result c c'
  acquire_batch_takes block rounds c c' result e =
      subst (TookAtLast c) e (rounds_took block rounds c)
