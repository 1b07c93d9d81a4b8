-- ===== src/Canary/Client/Acquiring.antt =====
-- `_acquire_batch` and `_process_next_batch`: the writer waits for its queue, its breaker and its
-- bucket, takes a batch and dispatches it.
use dbirth.Base.{
  ℕ, Bool, true, false, Option, none, some, List, [], ◌∷◌, if◌then◌else◌, ◌==◌, length, take, drop,
}
use dbirth.Canary.TokenBucket.{ticks, consume, time_until_ready}
use dbirth.Canary.CircuitBreaker.{allow, time_until_allow}
use dbirth.Canary.Metrics.{inc_throttled, set_queue_depth, inc_circuit_open, set_circuit_state}
use dbirth.Canary.Client.{CanaryClient, wait}
use dbirth.Canary.Client.Sending.{Attempt, dispatch}

-- What one round of the loop of `_acquire_batch` meets: the stop event, and the clock's times when
-- the breaker and the bucket are asked, and when the time to wait is computed.
pub record Round : Type 0 where
  pub stopped : Bool
  pub allow_at : ℕ
  pub consume_at : ℕ
  pub wait_at : ℕ

-- How a round ends: another one follows, or `_acquire_batch` returns, with a batch or without.
pub data Acquired (D : Type 0) : Type 0 where
  again : Acquired D
  returns : Option (List D) → Acquired D

-- One token, in the parts of the bucket: a tick is a hundredth of a second, and one tick at a rate
-- of one token a second brings one part.
abbrev pub one_token : ℕ
one_token = 100

module _ {D : Type 0} where
  -- the last lines of a round, which take the batch off the queue
  unfoldable pub take_batch : CanaryClient D → Acquired D × CanaryClient D
  take_batch c = (
    returns (some (take c.max_batch_tags c.queue)),
    record c {
      queue = drop c.max_batch_tags c.queue;
      metrics = set_queue_depth (length (drop c.max_batch_tags c.queue)) c.metrics;
    },
  )

  -- a round that the bucket holds back; `0.01` is one tick
  unfoldable pub throttle : ℕ → CanaryClient D → CanaryClient D
  throttle now c =
      let (wait_time, bucket) = time_until_ready one_token now c.bucket in
      wait (if wait_time.parts == 0 then ticks 1 else wait_time)
        (record c { bucket = bucket; metrics = inc_throttled c.metrics })

  -- a round that the breaker holds back
  unfoldable pub hold : ℕ → CanaryClient D → CanaryClient D
  hold now c =
      wait (ticks (time_until_allow now c.circuit))
        (record c { metrics = set_circuit_state c.circuit.state (inc_circuit_open c.metrics) })

  abbrev pub after_bucket : Bool → Round → CanaryClient D → Acquired D × CanaryClient D
  after_bucket true r c = take_batch c
  after_bucket false r c = (again, throttle r.wait_at c)

  abbrev pub after_breaker : Bool → Round → CanaryClient D → Acquired D × CanaryClient D
  after_breaker true r c =
      let (granted, bucket) = consume one_token r.consume_at c.bucket in
      after_bucket granted r (record c { bucket = bucket })
  after_breaker false r c = (again, hold r.wait_at c)

  abbrev pub after_queue : Bool → Bool → Round → CanaryClient D → Acquired D × CanaryClient D
  after_queue true true r c = (again, c)
  after_queue true false r c = (returns none, c)
  after_queue false block r c =
      let (allowed, circuit) = allow r.allow_at c.circuit in
      after_breaker allowed r (record c { circuit = circuit })

  abbrev pub after_stop : Bool → Bool → Round → CanaryClient D → Acquired D × CanaryClient D
  after_stop true block r c = (returns none, c)
  after_stop false block r c = after_queue (length c.queue == 0) block r c

  -- One round of the loop of `_acquire_batch`; `wait(timeout=0.1)` on an empty queue is no call of
  -- `_wait`. Other threads only append to the queue, so it is not empty when the batch is taken.
  unfoldable pub acquire_round : Bool → Round → CanaryClient D → Acquired D × CanaryClient D
  unfolding hold throttle take_batch
  acquire_round block r c = after_stop r.stopped block r c

  abbrev pub pick_round :
      Acquired D
      → Option (Option (List D) × CanaryClient D)
      → CanaryClient D
      → Option (Option (List D) × CanaryClient D)
  pick_round again rest c = rest
  pick_round (returns batch) rest c = some (batch, c)

  -- `_acquire_batch` over these rounds; none where it has not returned at their end
  unfoldable pub acquire_batch :
      Bool → List Round → CanaryClient D → Option (Option (List D) × CanaryClient D)
  unfolding acquire_round
  acquire_batch block [] c = none
  acquire_batch block (r ∷ rounds) c =
      let step = acquire_round block r c in
      let rest = acquire_batch block rounds step.1 in pick_round step.0 rest step.1

  abbrev pub after_dispatch : Option (CanaryClient D) → Option (Bool × CanaryClient D)
  after_dispatch none = none
  after_dispatch (some c) = some (true, c)

  abbrev pub after_acquire :
      (ℕ → ℕ)
      → (ℕ → Attempt)
      → Option (Option (List D) × CanaryClient D)
      → Option (Bool × CanaryClient D)
  after_acquire jitter attempts none = none
  after_acquire jitter attempts (some (none, c)) = some (false, c)
  after_acquire jitter attempts (some (some [], c)) = some (false, c)
  after_acquire jitter attempts (some (some (d ∷ ds), c)) =
      after_dispatch (dispatch jitter attempts (d ∷ ds) c)

  -- `_process_next_batch`; none where `_acquire_batch` has not returned at the end of the rounds
  unfoldable pub process_next_batch :
      Bool → List Round → (ℕ → ℕ) → (ℕ → Attempt) → CanaryClient D → Option (Bool × CanaryClient D)
  process_next_batch block rounds jitter attempts c =
      after_acquire jitter attempts (acquire_batch block rounds c)
