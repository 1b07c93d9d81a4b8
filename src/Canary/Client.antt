-- ===== src/Canary/Client.antt =====
-- `CanaryClient`: its state and its bounded queue. A diff is of any type here. The request sender, the
-- clock and the stop event are outside: what they give is an argument of each step. What is handed to
-- a callback or slept for is kept as a list.
pub mod Sending
pub mod Acquiring
use dbirth.Base.{
  ℕ, Bool, true, false, Option, List, [], ◌∷◌, ◌++◌, if◌then◌else◌, leb, ◌==◌, length,
}
use dbirth.Canary.TokenBucket.{TokenBucket, Duration}
use dbirth.Canary.CircuitBreaker.{CircuitBreaker}
use dbirth.Canary.RetryPolicy.{RetryPolicy}
use dbirth.Canary.Session.{SessionManager}
use dbirth.Canary.Metrics.{Metrics, inc_queue_dropped, set_queue_depth}

pub record CanaryClient (D : Type 0) : Type 0 where
  pub queue_capacity : ℕ
  pub max_batch_tags : ℕ
  pub queue : List D
  pub metrics : Metrics
  pub bucket : TokenBucket
  pub retry_policy : RetryPolicy
  pub circuit : CircuitBreaker
  pub session_manager : Option SessionManager
  -- whether there is a handler, and what it was called with
  pub has_backpressure_handler : Bool
  pub pushed_back : List D
  pub has_dead_letter_handler : Bool
  pub dead_letters : List D
  pub sleeps : List Duration

module _ {D : Type 0} where
  abbrev pub with_metrics : (Metrics → Metrics) → CanaryClient D → CanaryClient D
  with_metrics f c = record c { metrics = f c.metrics }

  -- `_wait`
  abbrev pub wait : Duration → CanaryClient D → CanaryClient D
  wait duration c =
      if duration.parts == 0 then c else record c { sleeps = c.sleeps ++ duration ∷ [] }

  -- `enqueue`; false is `CanaryQueueFull`
  unfoldable pub enqueue : D → CanaryClient D → Bool × CanaryClient D
  enqueue diff c =
      if leb c.queue_capacity (length c.queue)
      then (
        false,
        record c {
          metrics = inc_queue_dropped c.metrics;
          pushed_back =
              if c.has_backpressure_handler then c.pushed_back ++ diff ∷ [] else c.pushed_back;
        },
      )
      else (
        true,
        record c {
          queue = c.queue ++ diff ∷ [];
          metrics = set_queue_depth (length (c.queue ++ diff ∷ [])) c.metrics;
        },
      )
