-- ===== src/Canary/Client/Sending.antt =====
-- `_dispatch`: a batch is sent until it gets through, or is given up.
use text.Mathlib.Text.{find?}
use dbirth.Base.{
  ℕ, zero, suc, ◌+◌, String, Bool, true, false, ◌||◌, Option, none, some, List, ◌++◌, if◌then◌else◌,
  leb, ◌==◌, length,
}
use dbirth.Base.Result.{Result, ok, err}
use dbirth.Canary.TokenBucket.{ticks}
use dbirth.Canary.CircuitBreaker.{record_success, record_failure}
use dbirth.Canary.RetryPolicy.{RetryPolicy, max_attempts, next_delay}
use dbirth.Canary.Session.{SessionManager, is_true, mark_activity, invalidate}
use dbirth.Canary.Metrics.{
  inc_requests, inc_success, inc_retry, inc_failure, set_circuit_state, inc_dead_letters,
}
use dbirth.Canary.Client.{CanaryClient, with_metrics, wait}

-- The body of a response: a JSON object with its `message`, `error` and `reason`, which are strings,
-- another JSON value but null, as `str` shows it, or null or no JSON, with the text of the response.
pub data Body : Type 0 where
  json_object : Option String → Option String → Option String → Body
  json_value plain : String → Body

-- What a request sender raises, as far as the client tells it apart.
pub data SendError : Type 0 where
  payload_too_large request_error other_error : SendError
  http_status : ℕ → Body → SendError

-- One try of the request: how it ended, and the clock's time then.
pub record Attempt : Type 0 where
  pub outcome : Result SendError (Unit {0})
  pub at : ℕ

abbrev pub or_else : Option String → String → String
or_else none rest = rest
or_else (some s) rest = if is_true s then s else rest

-- the text that `_handle_session_error` looks through
abbrev pub message_of : Body → String
message_of (json_object message error reason) = or_else message (or_else error (or_else reason ""))
message_of (json_value shown) = shown
message_of (plain text) = text

-- `needle in text`
abbrev pub mentions : String → String → Bool
mentions needle text = elim (find? text needle) [ none ↦ false | some _ ↦ true ]

-- whether an error says that the session is no longer valid
unfoldable pub is_session_error : SendError → Bool
is_session_error (http_status status body) =
    (status == 401 || status == 403)
    || (mentions "BadSessionToken" (message_of body) || mentions "sessionToken" (message_of body))
is_session_error payload_too_large = false
is_session_error request_error = false
is_session_error other_error = false

-- `_is_retriable`
unfoldable pub is_retriable : SendError → Bool
is_retriable payload_too_large = false
is_retriable (http_status status body) = leb 500 status || status == 429
is_retriable request_error = true
is_retriable other_error = true

abbrev pub mark_session : ℕ → Option SessionManager → Option SessionManager
mark_session now none = none
mark_session now (some m) = some (mark_activity now m)

abbrev pub gives_up : ℕ → Bool → RetryPolicy → Bool
gives_up attempt retriable policy =
    if leb (max_attempts policy) attempt then true else if retriable then false else true

module _ {D : Type 0} where
  abbrev pub drop_session : Bool → SessionManager → CanaryClient D → Bool × CanaryClient D
  drop_session true m c = (true, record c { session_manager = some (invalidate m) })
  drop_session false m c = (false, c)

  abbrev pub check_session :
      SendError → Option SessionManager → CanaryClient D → Bool × CanaryClient D
  check_session error none c = (false, c)
  check_session error (some m) c = drop_session (is_session_error error) m c

  -- `_handle_session_error`
  unfoldable pub handle_session_error : SendError → CanaryClient D → Bool × CanaryClient D
  handle_session_error error c = check_session error c.session_manager c

  -- the `else` branch of `_dispatch`
  unfoldable pub succeed : List D → ℕ → CanaryClient D → CanaryClient D
  succeed batch now c =
      let circuit = record_success c.circuit in
      record c {
        metrics = set_circuit_state circuit.state (inc_success (length batch) c.metrics);
        circuit = circuit;
        session_manager = mark_session now c.session_manager;
      }

  -- `_emit_dead_letter`
  unfoldable pub emit_dead_letter : List D → CanaryClient D → CanaryClient D
  emit_dead_letter batch c = record c {
    metrics = inc_dead_letters (length batch) c.metrics;
    dead_letters = if c.has_dead_letter_handler then c.dead_letters ++ batch else c.dead_letters;
  }

  -- a failure that ends the dispatch
  unfoldable pub give_up : List D → ℕ → CanaryClient D → CanaryClient D
  unfolding emit_dead_letter
  give_up batch now c =
      let circuit = record_failure now c.circuit in
      emit_dead_letter batch (record c {
        metrics = set_circuit_state circuit.state (inc_failure c.metrics);
        circuit = circuit;
      })

  -- a failure after which the request is tried again: none is an `IndexError` of the policy
  unfoldable pub retry : (ℕ → ℕ) → ℕ → ℕ → CanaryClient D → Option (CanaryClient D)
  retry jitter attempt now c =
      let circuit = record_failure now c.circuit in
      elim (next_delay jitter (attempt + 1) c.retry_policy) [
        | none ↦ none
        | some delay ↦ some (
            wait (ticks delay) (record c {
              metrics = set_circuit_state circuit.state (inc_retry c.metrics);
              circuit = circuit;
            }))
      ]

  -- the loop of `_dispatch` from an attempt on; none where the fuel runs out, or on an `IndexError`
  unfoldable pub dispatch_from :
      (ℕ → ℕ) → (ℕ → Attempt) → List D → ℕ → ℕ → CanaryClient D → Option (CanaryClient D)
  unfolding give_up succeed
  dispatch_from jitter attempts batch zero attempt c = none
  dispatch_from jitter attempts batch (suc fuel) attempt c =
      let now = (attempts attempt).at in
      elim (attempts attempt).outcome [
        | ok _ ↦ some (succeed batch now c)
        | err e ↦
            let (invalidated, c') = handle_session_error e c in
            elim (gives_up attempt (is_retriable e || invalidated) c'.retry_policy) [
              | true ↦ some (give_up batch now c')
              | false ↦ elim (retry jitter attempt now c') [
                | none ↦ none
                | some c'' ↦ dispatch_from jitter attempts batch fuel (attempt + 1) c''
              ]
            ]
      ]

  -- `_dispatch`, with one unit of fuel for each attempt that the policy allows
  unfoldable pub dispatch :
      (ℕ → ℕ) → (ℕ → Attempt) → List D → CanaryClient D → Option (CanaryClient D)
  dispatch jitter attempts batch c =
      dispatch_from jitter attempts batch (suc c.retry_policy.retries) 1
        (with_metrics inc_requests c)
