-- ===== src/Birth/Runtime/Tests.antt =====
-- Runs of the runtime, and the claims at concrete inputs.
use dbirth.Base.{ℕ, ◌≡◌, refl, true, false, Option, none, some, [], ◌∷◌, ◌==◌, if◌then◌else◌}
use dbirth.Birth.Runtime.Diffs.{malformed, Handled, handle_diffs-Handled}
use dbirth.Birth.Runtime.Plan.{Ended}
use dbirth.Birth.Runtime.Shutdown.{run-Ended}
use dbirth.Birth.Runtime.{
  RuntimeSettings, Faults, Runtime, connect_subscriber, start_client, start_listener_thread,
  run_subscriber, stop_listener, open_runtime, is_listening, start_cdc_listener, stop, run,
  handle_diffs,
}
use dbirth.Canary.CircuitBreaker.{closed}
use dbirth.Canary.Client.{CanaryClient}
use dbirth.Canary.Metrics.{no_metrics}

abbrev everything : RuntimeSettings
everything = record {
  canary_enabled = true;
  canary_base_url = "https://canary";
  canary_api_token = "token";
  cdc_enabled = true;
  db_mode = "local";
}

-- Only the revocation of the session raises.
abbrev bad_revoke : Faults
bad_revoke = record {
  session_manager_fails = false;
  client_fails = false;
  connect_fails = false;
  start_client_fails = false;
  listener_fails = false;
  thread_fails = false;
  run_fails = false;
  stop_listener_fails = false;
  revoke_fails = true;
  close_fails = false;
  thread_is_alive = true;
}

abbrev opened : Runtime
opened = record {
  cdc_service = false;
  cdc_thread = false;
  canary_client = true;
  session_manager = true;
  calls = [];
}

run-Ended_example :
    Ended (is_listening everything bad_revoke) bad_revoke opened (run everything bad_revoke opened)
unfolding open_runtime
run-Ended_example = run-Ended everything bad_revoke opened refl

abbrev bad_stop : Faults
bad_stop = record bad_revoke { revoke_fails = false; stop_listener_fails = true }

-- If the listener cannot be stopped, nothing after that is done, and the session stays open.
stuck_listener : run everything bad_stop opened ≡ (
  false,
  record {
    cdc_service = true;
    cdc_thread = true;
    canary_client = true;
    session_manager = true;
    calls =
        connect_subscriber ∷ start_client ∷ start_listener_thread ∷ run_subscriber ∷ stop_listener
        ∷ [];
  },
)
unfolding run start_cdc_listener stop
stuck_listener = refl

-- Without a broker nothing is started, and the session manager is left open.
no_broker :
    run everything (record bad_revoke { connect_fails = true }) opened
    ≡ (true, record opened { calls = connect_subscriber ∷ [] })
unfolding run
no_broker = refl

abbrev canary : CanaryClient ℕ
canary = record {
  queue_capacity = 2;
  max_batch_tags = 2;
  queue = 7 ∷ [];
  metrics = no_metrics;
  bucket = record { rate = 50; capacity = 200; tokens = 120; updated_at = 10 };
  retry_policy = record { retries = 1; limits = 2 ∷ [] };
  circuit = record {
    failure_threshold = 2;
    reset_timeout = 10;
    state = closed;
    failures = 0;
    opened_at = 0;
  };
  session_manager = none;
  has_backpressure_handler = false;
  pushed_back = [];
  has_dead_letter_handler = false;
  dead_letters = [];
  sleeps = [];
}

-- The second payload is no diff, and the queue has room for one.
abbrev mapped : ℕ → Option ℕ
mapped n = if n == 2 then none else some n

handle_diffs-Handled_example :
    (c' : CanaryClient ℕ) × (handle_diffs mapped (1 ∷ 2 ∷ 3 ∷ []) (some canary) ≡ some c')
    × Handled 3 (malformed mapped (1 ∷ 2 ∷ 3 ∷ [])) canary c'
handle_diffs-Handled_example = handle_diffs-Handled mapped (1 ∷ 2 ∷ 3 ∷ []) canary
