-- ===== src/Cdc/Replication/Backoff.antt =====
-- `ExponentialBackoff`. The multiplier is a whole number, as every caller's is.
use dbirth.Base.{
  ℕ, ◌+◌, ◌*◌, ◌^◌, ◌≤◌, min, ◌≡◌, Bool, false, Option, none, some, arith, if◌then◌else◌, leb, ltb,
  ◌==◌,
}
use dbirth.Base.Result.{Result, ok, err}

pub record ExponentialBackoff : Type 0 where
  pub base_interval : ℕ
  pub multiplier : ℕ
  pub max_interval : ℕ
  pub max_attempts : Option ℕ
  pub jitter : Bool
  pub attempt : ℕ

-- The three `ValueError`s of the constructor.
pub data Refusal : Type 0 where
  bad_base bad_multiplier bad_max : Refusal

unfoldable pub open_backoff : ℕ → ℕ → ℕ → Option ℕ → Bool → Result Refusal ExponentialBackoff
open_backoff base multiplier max_interval max_attempts jitter =
    if base == 0
    then err bad_base
    else if multiplier == 0
    then err bad_multiplier
    else if ltb max_interval base
    then err bad_max
    else ok (record {
      base_interval = base;
      multiplier = multiplier;
      max_interval = max_interval;
      max_attempts = max_attempts;
      jitter = jitter;
      attempt = 0;
    })

unfoldable pub reset : ExponentialBackoff → ExponentialBackoff
reset b = record b { attempt = 0 }

unfoldable pub exhausted : ExponentialBackoff → Bool
exhausted b = elim b.max_attempts [ none ↦ false | some most ↦ leb most b.attempt ]

abbrev pub raw_delay : ExponentialBackoff → ℕ
raw_delay b = min (b.base_interval * b.multiplier ^ b.attempt) b.max_interval

-- `next_delay`, with `random_fn() * x` as a function of x; none is `BackoffExhausted`
unfoldable pub next_delay : (ℕ → ℕ) → ExponentialBackoff → Option ℕ × ExponentialBackoff
unfolding exhausted
next_delay scale b = if exhausted b then (none, b) else (
  some (if b.jitter then scale (raw_delay b) else raw_delay b),
  record b { attempt = b.attempt + 1 },
)

-- The attempts that were made are within the limit.
abbrev pub AtMost : Option ℕ → ℕ → Type 0
AtMost none attempt = Unit
AtMost (some most) attempt = attempt ≤ most

abbrev pub IsWithinLimit : ExponentialBackoff → Type 0
IsWithinLimit b = AtMost b.max_attempts b.attempt

-- With a jitter that lengthens no delay, a delay is at most the computed one, which is at most the
-- largest interval, and counts one attempt within the limit; the backoff is exhausted exactly when
-- the attempts have reached the limit, and then stays as it is.
pub next_delay_bounds :
    (scale : ℕ → ℕ) (b : ExponentialBackoff)
    → ((x : ℕ) → scale x ≤ x)
    → IsWithinLimit b
    → let (delay, b') = next_delay scale b in
      IsWithinLimit b'
      × ((d : ℕ)
          → delay ≡ some d
          → (d ≤ raw_delay b) × (d ≤ b.max_interval) × (b'.attempt ≡ b.attempt + 1))
      × (delay ≡ none → (b.max_attempts ≡ some b.attempt) × (b' ≡ b))
unfolding next_delay
next_delay_bounds scale b shorter within =
    (ground arith, λ d e. ground (arith, shorter (raw_delay b)), λ e. ground arith)
