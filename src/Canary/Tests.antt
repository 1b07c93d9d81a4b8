-- ===== src/Canary/Tests.antt =====
-- Runs of the writer, and the theorems at concrete inputs.
use mathlib.Core.Path.{subst}
use dbirth.Base.{
  if◌then◌else◌, ◌==◌, ℕ, suc, ◌+◌, ◌-◌, ◌*◌, ◌≤◌, ◌<◌, ◌≡◌, refl, inr, true, false, some, [], ◌∷◌,
  arith, min, ◌^◌,
}
use dbirth.Base.Result.{ok, err}
use dbirth.Canary.TokenBucket.{
  TokenBucket, consume, consume_all, time_until_ready, consume_all_rate, time_until_ready_enough,
}
use dbirth.Canary.TokenBucket
use dbirth.Canary.CircuitBreaker.{
  CircuitBreaker, closed, open_circuit, half_open, allow, time_until_allow, record_success,
  record_failure, failed, handle, handle-IsValid, allow_open, fail_all, tripped, fail_all_trips,
}
use dbirth.Canary.CircuitBreaker
use dbirth.Canary.RetryPolicy.{RetryPolicy, limits_from, open_policy, next_delay, next_delay_closed}
use dbirth.Canary.Session.{answers, SessionManager, Exchange, Settled, get_token}
use dbirth.Canary.Metrics.{no_metrics, inc_requests}
use dbirth.Canary.Client.Sending.{
  SendError, Attempt, plain, http_status, payload_too_large, dispatch_from, dispatch, is_retriable,
  is_session_error, handle_session_error, give_up, emit_dead_letter,
}
use dbirth.Canary.Client.{CanaryClient, with_metrics, enqueue}
use dbirth.Canary.Client.Acquiring.{
  Round, acquire_round, acquire_batch, process_next_batch, take_batch,
}
use dbirth.Canary.Retries.{goes_on}
use dbirth.Canary.Dispatch.{Settles, dispatch-Settles}
use dbirth.Canary.Outcomes.{AllFailed, IsDelivered, dispatch_delivers, IsDead, dispatch_gives_up}
use dbirth.Canary.Queue.{Took, acquire_batch_takes}
use dbirth.Canary.Accounts.{offered, processed, run, total, IsBounded, run_accounts}
use dbirth.Canary.Accounts
use dbirth.Canary.Tokens.{get_token-Settled}

abbrev bucket : TokenBucket
bucket = record { rate = 50; capacity = 200; tokens = 120; updated_at = 10 }

consume_twice :
    consume_all ((100, 10) ∷ (100, 11) ∷ (100, 13) ∷ []) bucket
    ≡ (200, record bucket { tokens = 70; updated_at = 13 })
unfolding consume_all consume TokenBucket.refill
consume_twice = refl

consume_all_rate_example :
    let (granted, b') = consume_all ((100, 10) ∷ (100, 11) ∷ (100, 13) ∷ []) bucket in
    (granted ≤ bucket.capacity + (b'.updated_at - bucket.updated_at) * bucket.rate)
    × TokenBucket.IsWithin b'
consume_all_rate_example =
    consume_all_rate ((100, 10) ∷ (100, 11) ∷ (100, 13) ∷ []) bucket (omega arith)

-- 80 parts are missing, at 50 of them a tick.
eighty : (time_until_ready 200 10 bucket).0 ≡ record { parts = 80; rate = 50 }
unfolding time_until_ready TokenBucket.refill
eighty = refl

time_until_ready_enough_run : (consume 200 12 (time_until_ready 200 10 bucket).1).0 ≡ true
unfolding time_until_ready TokenBucket.refill
time_until_ready_enough_run =
    time_until_ready_enough 200 10 12 bucket (omega arith) (omega arith) (omega arith) (omega arith)

abbrev breaker : CircuitBreaker
breaker = record {
  failure_threshold = 3;
  reset_timeout = 60;
  state = closed;
  failures = 1;
  opened_at = 0;
}

abbrev opened : CircuitBreaker
opened = record breaker { state = open_circuit; failures = 3; opened_at = 40 }

handle-IsValid_run : CircuitBreaker.IsValid (handle (failed 7) breaker)
handle-IsValid_run = handle-IsValid (failed 7) breaker (omega arith, λ _. omega arith)

allow_open_run :
    let (allowed, c') = allow 100 opened in
    (100 < opened.opened_at + opened.reset_timeout → (allowed ≡ false) × (c' ≡ opened))
    × (opened.opened_at + opened.reset_timeout ≤ 100
        → (allowed ≡ true)
          × (c'.state ≡ half_open)
          × ((later : ℕ)
              → ((record_failure later c').state ≡ open_circuit)
                × ((record_failure later c').opened_at ≡ later)))
allow_open_run = allow_open 100 opened refl

fail_all_trips_example : (fail_all (5 ∷ 6 ∷ []) breaker).state ≡ tripped 2 breaker
fail_all_trips_example = fail_all_trips (5 ∷ 6 ∷ []) breaker (omega arith, λ _. omega arith) refl

abbrev policy : RetryPolicy
policy = record { retries = 3; limits = 20 ∷ 40 ∷ 50 ∷ [] }

policy_opens : open_policy 3 20 50 ≡ some policy
unfolding open_policy limits_from
policy_opens = refl

next_delay_closed_run :
    (next_delay (λ x. x) 1 policy ≡ some 0)
    × ((k : ℕ) → k < 3 → next_delay (λ x. x) (k + 2) policy ≡ some (min (20 * 2 ^ k) 50))
    × ((k m : ℕ)
        → 3 ≡ suc m
        → 3 ≤ k
        → next_delay (λ x. x) (k + 2) policy ≡ some (min (20 * 2 ^ m) 50))
next_delay_closed_run = next_delay_closed (λ x. x) 3 20 50 policy policy_opens

abbrev manager : SessionManager
manager = record {
  historians = "localhost" ∷ [];
  session_timeout_ms = 120000;
  keepalive_idle_seconds = 30;
  keepalive_jitter_seconds = 10;
  token = some "abc";
  last_activity = 100;
  last_keepalive = 100;
  posts = [];
}

-- The keep-alive fails, so that the token is gone.
abbrev exchange : Exchange
exchange = record {
  answer = answers (some "def");
  acquired_at = 150;
  jitter = 4;
  keepalive_succeeds = false;
  now = 151;
}

get_token-Settled_run : Settled (get_token exchange manager)
get_token-Settled_run = get_token-Settled exchange manager refl

abbrev client : CanaryClient ℕ
client = record {
  queue_capacity = 3;
  max_batch_tags = 2;
  queue = 7 ∷ 8 ∷ 9 ∷ [];
  metrics = no_metrics;
  bucket = bucket;
  retry_policy = policy;
  circuit = breaker;
  session_manager = some manager;
  has_backpressure_handler = true;
  pushed_back = [];
  has_dead_letter_handler = true;
  dead_letters = [];
  sleeps = [];
}

-- The session is not valid any more, and then the request succeeds.
abbrev attempts : ℕ → Attempt
attempts n =
    if n == 1
    then record { outcome = err (http_status 401 (plain "")); at = 20 }
    else record { outcome = ok tt; at = 90 }

-- Payloads that are too large.
abbrev refused : ℕ → Attempt
refused n = record { outcome = err payload_too_large; at = n }

dispatch-Settles_example :
    (c' : CanaryClient ℕ) × (dispatch (λ x. x) attempts (7 ∷ 8 ∷ []) client ≡ some c')
    × Settles (7 ∷ 8 ∷ []) 1 (with_metrics inc_requests client) c'
dispatch-Settles_example = dispatch-Settles (λ x. x) attempts (7 ∷ 8 ∷ []) client

tries_again : goes_on true (http_status 401 (plain "")) ≡ true
unfolding is_retriable is_session_error
tries_again = refl

one_failed : AllFailed attempts true 1 2
one_failed j from to =
    let first : 1 ≡ j = omega (arith, from, to) in
    subst (λ i. (e : SendError) × ((attempts i).outcome ≡ err e) × (goes_on true e ≡ true)) first
      (http_status 401 (plain ""), refl, tries_again)

stops_at_once : goes_on true payload_too_large ≡ false
unfolding is_retriable is_session_error
stops_at_once = refl

dispatch_delivers_example :
    (c' : CanaryClient ℕ) × (dispatch (λ x. x) attempts (7 ∷ 8 ∷ []) client ≡ some c')
    × IsDelivered (7 ∷ 8 ∷ []) 1 client c'
dispatch_delivers_example =
    dispatch_delivers (λ x. x) attempts (7 ∷ 8 ∷ []) 1 client (omega arith) one_failed refl

dispatch_gives_up_example :
    (c' : CanaryClient ℕ) × (dispatch (λ x. x) refused (7 ∷ 8 ∷ []) client ≡ some c')
    × IsDead (7 ∷ 8 ∷ []) 0 client c'
dispatch_gives_up_example =
    dispatch_gives_up (λ x. x) refused (7 ∷ 8 ∷ []) 0 payload_too_large client (omega arith)
      (λ j from to. absurd (omega (arith, from, to))) refl (inr stops_at_once)

abbrev round : Round
round = record { stopped = false; allow_at = 12; consume_at = 12; wait_at = 12 }

-- The bucket has 120 parts, and a token is 100 of them, so the first round takes two diffs.
taken :
    (acquire_batch true (round ∷ []) client)
    ≡ some (
      some (7 ∷ 8 ∷ []),
      record client {
        queue = 9 ∷ [];
        metrics = record no_metrics { queue_depth = 1 };
        bucket = record bucket { tokens = 100; updated_at = 12 };
      },
    )
unfolding acquire_batch acquire_round take_batch allow consume TokenBucket.refill
taken = refl

acquire_batch_takes_example : Took (some (7 ∷ 8 ∷ [])) client (record client {
  queue = 9 ∷ [];
  metrics = record no_metrics { queue_depth = 1 };
  bucket = record bucket { tokens = 100; updated_at = 12 };
})
acquire_batch_takes_example =
    acquire_batch_takes true (round ∷ []) client
      (record client {
        queue = 9 ∷ [];
        metrics = record no_metrics { queue_depth = 1 };
        bucket = record bucket { tokens = 100; updated_at = 12 };
      })
      (some (7 ∷ 8 ∷ [])) taken

-- The queue is full, so that 4 is refused; a batch is refused for good, and then 5 is accepted.
abbrev after_run : CanaryClient ℕ
after_run = record client {
  queue = 9 ∷ 5 ∷ [];
  metrics = record no_metrics {
    queue_depth = 2;
    queue_dropped_total = 1;
    requests_total = 1;
    failure_total = 1;
    dead_letter_total = 2;
  };
  bucket = record bucket { tokens = 100; updated_at = 12 };
  circuit = record breaker { failures = 2 };
  pushed_back = 4 ∷ [];
  dead_letters = 7 ∷ 8 ∷ [];
}

three_events :
    run (offered 4 ∷ processed true (round ∷ []) (λ x. x) refused ∷ offered 5 ∷ []) client
    ≡ some (1, after_run)
unfolding run Accounts.handle enqueue process_next_batch acquire_batch acquire_round take_batch
    allow consume TokenBucket.refill dispatch dispatch_from handle_session_error is_session_error
    is_retriable give_up emit_dead_letter record_failure
three_events = refl

run_accounts_example : (total after_run ≡ total client + 1) × IsBounded after_run
run_accounts_example =
    run_accounts (offered 4 ∷ processed true (round ∷ []) (λ x. x) refused ∷ offered 5 ∷ []) 1
      client after_run three_events (omega arith)
