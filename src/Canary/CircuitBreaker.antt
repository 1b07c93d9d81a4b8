-- ===== src/Canary/CircuitBreaker.antt =====
-- `CircuitBreaker`, at the clock's time given to each call, in ticks.
use dbirth.Base.{
  suc, sym, leb→le, ℕ, ◌+◌, ◌-◌, ◌≤◌, ◌<◌, ◌≡◌, Bool, true, false, List, [], ◌∷◌, if◌then◌else◌,
  ltb, leb, ◌==◌, arith, Bool-cases, inl, inr, length, ◌∙◌,
}
use dbirth.Base.Result.{Result, ok, err}

pub data CircuitState : Type 0 where
  closed open_circuit half_open : CircuitState

pub record CircuitBreaker : Type 0 where
  pub failure_threshold : ℕ
  pub reset_timeout : ℕ
  pub state : CircuitState
  pub failures : ℕ
  pub opened_at : ℕ

-- The `ValueError`s of the constructor.
pub data Refusal : Type 0 where
  bad_threshold bad_timeout : Refusal

unfoldable pub open_breaker : ℕ → ℕ → Result Refusal CircuitBreaker
open_breaker threshold timeout =
    if threshold == 0
    then err bad_threshold
    else if timeout == 0
    then err bad_timeout
    else ok (record {
      failure_threshold = threshold;
      reset_timeout = timeout;
      state = closed;
      failures = 0;
      opened_at = 0;
    })

-- `max(0, reset_timeout - (now - opened_at))`, also where the clock went back
unfoldable pub time_until_allow : ℕ → CircuitBreaker → ℕ
time_until_allow now c = elim c.state [
  | open_circuit ↦ (c.reset_timeout + c.opened_at) - now
  | _ ↦ 0
]

unfoldable pub allow : ℕ → CircuitBreaker → Bool × CircuitBreaker
allow now c = elim c.state [
  | open_circuit ↦
      if ltb 0 (time_until_allow now c)
      then (false, c)
      else (true, record c { state = half_open; failures = 0 })
  | _ ↦ (true, c)
]

unfoldable pub record_success : CircuitBreaker → CircuitBreaker
record_success c = record c { state = closed; failures = 0; opened_at = 0 }

abbrev pub is_closed : CircuitState → Bool
is_closed closed = true
is_closed open_circuit = false
is_closed half_open = false

unfoldable pub record_failure : ℕ → CircuitBreaker → CircuitBreaker
record_failure now c =
    let failures = c.failures + 1 in
    let counted : CircuitBreaker = record c { failures = failures } in
    elim c.state [
      | closed ↦
          if leb c.failure_threshold failures
          then record counted { state = open_circuit; opened_at = now }
          else counted
      | _ ↦ record counted { state = open_circuit; opened_at = now }
    ]

-- What happens to a breaker: a call of one of its methods.
pub data Event : Type 0 where
  asked succeeded failed : ℕ → Event

unfoldable pub handle : Event → CircuitBreaker → CircuitBreaker
handle (asked now) c = (allow now c).1
handle (succeeded now) c = record_success c
handle (failed now) c = record_failure now c

-- A closed breaker has counted fewer failures than the threshold.
abbrev pub IsValid : CircuitBreaker → Type 0
IsValid c = (0 < c.failure_threshold) × (c.state ≡ closed → c.failures < c.failure_threshold)

allow-IsValid : (now : ℕ) (c : CircuitBreaker) → IsValid c → IsValid (allow now c).1
unfolding allow
allow-IsValid now c h = ground (arith, h.1)

record_failure-IsValid : (now : ℕ) (c : CircuitBreaker) → IsValid c → IsValid (record_failure now c)
unfolding record_failure
record_failure-IsValid now c h = ground (arith, h.1)

-- Every call of a method keeps a breaker valid: a closed one has counted fewer failures since its
-- last success than the threshold.
pub handle-IsValid : (event : Event) (c : CircuitBreaker) → IsValid c → IsValid (handle event c)
unfolding handle record_success
handle-IsValid (asked now) c h = allow-IsValid now c h
handle-IsValid (succeeded now) c h = (h.0, λ e. h.0)
handle-IsValid (failed now) c h = record_failure-IsValid now c h

-- An open breaker refuses until its reset timeout has passed since it opened, and stays as it is;
-- from then on it allows the next request, half open, and one failure opens it again at once,
-- whatever the threshold.
pub allow_open :
    (now : ℕ) (c : CircuitBreaker)
    → c.state ≡ open_circuit
    → let (allowed, c') = allow now c in
      (now < c.opened_at + c.reset_timeout → (allowed ≡ false) × (c' ≡ c))
      × (c.opened_at + c.reset_timeout ≤ now
          → (allowed ≡ true)
            × (c'.state ≡ half_open)
            × ((later : ℕ)
                → ((record_failure later c').state ≡ open_circuit)
                  × ((record_failure later c').opened_at ≡ later)))
unfolding allow time_until_allow record_failure
allow_open now c e = (λ h. ground arith, λ h. ground arith)

-- The failures at these times, one after another.
unfoldable pub fail_all : List ℕ → CircuitBreaker → CircuitBreaker
unfolding record_failure
fail_all [] c = c
fail_all (now ∷ times) c = fail_all times (record_failure now c)

open-fail_all :
    (times : List ℕ) (c : CircuitBreaker)
    → c.state ≡ open_circuit
    → (fail_all times c).state ≡ open_circuit
unfolding fail_all record_failure
open-fail_all [] c e = e
open-fail_all (now ∷ times) c e = open-fail_all times (record_failure now c) (ground arith)

abbrev pub tripped : ℕ → CircuitBreaker → CircuitState
tripped n c = if leb c.failure_threshold (c.failures + n) then open_circuit else closed

failure_opens :
    (now : ℕ) (c : CircuitBreaker)
    → c.state ≡ closed
    → leb c.failure_threshold (c.failures + 1) ≡ true
    → (record_failure now c).state ≡ open_circuit
unfolding record_failure
failure_opens now c e h = ground arith

abbrev Counts : CircuitBreaker → CircuitBreaker → Type 0
Counts c c' = (c'.failure_threshold ≡ c.failure_threshold) × (c'.failures ≡ c.failures + 1)

failure-Counts :
    (now : ℕ) (c : CircuitBreaker)
    → c.state ≡ closed
    → leb c.failure_threshold (c.failures + 1) ≡ false
    → ((record_failure now c).state ≡ closed) × Counts c (record_failure now c)
unfolding record_failure
failure-Counts now c e h = ground arith

tripped_at :
    (c : CircuitBreaker) (n : ℕ) → c.failure_threshold ≤ c.failures + n → tripped n c ≡ open_circuit
tripped_at c n h = ground arith

tripped_next : (c c' : CircuitBreaker) (n : ℕ) → Counts c c' → tripped n c' ≡ tripped (suc n) c
tripped_next c c' n h = ground arith

-- From a valid closed breaker on, failures with no success between them open it exactly when they
-- and those that it had counted reach the threshold.
pub fail_all_trips :
    (times : List ℕ) (c : CircuitBreaker)
    → IsValid c
    → c.state ≡ closed
    → (fail_all times c).state ≡ tripped (length times) c
unfolding fail_all
fail_all_trips [] c v e = ground (arith, v.1 e)
fail_all_trips (now ∷ times) c v e =
    let v' = record_failure-IsValid now c v in
    elim (Bool-cases (leb c.failure_threshold (c.failures + 1))) [
      | inl reached ↦
          open-fail_all times (record_failure now c) (failure_opens now c e reached)
          ∙ sym (
              tripped_at c (suc (length times))
                (omega (arith, leb→le c.failure_threshold (c.failures + 1) reached)))
      | inr below ↦
          fail_all_trips times (record_failure now c) v' (failure-Counts now c e below).0
          ∙ tripped_next c (record_failure now c) (length times) (failure-Counts now c e below).1
    ]
