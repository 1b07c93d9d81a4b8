-- ===== src/Canary/Metrics.antt =====
-- `CanaryClientMetrics`.
use dbirth.Base.{ℕ, ◌+◌}
use dbirth.Canary.CircuitBreaker.{CircuitState, closed}

pub record Metrics : Type 0 where
  pub throttled_total : ℕ
  pub queue_depth : ℕ
  pub queue_dropped_total : ℕ
  pub requests_total : ℕ
  pub success_total : ℕ
  pub retry_total : ℕ
  pub failure_total : ℕ
  pub circuit_open_total : ℕ
  pub circuit_state : CircuitState
  pub dead_letter_total : ℕ

abbrev pub no_metrics : Metrics
no_metrics = record {
  throttled_total = 0;
  queue_depth = 0;
  queue_dropped_total = 0;
  requests_total = 0;
  success_total = 0;
  retry_total = 0;
  failure_total = 0;
  circuit_open_total = 0;
  circuit_state = closed;
  dead_letter_total = 0;
}

abbrev pub inc_throttled : Metrics → Metrics
inc_throttled m = record m { throttled_total = m.throttled_total + 1 }

abbrev pub inc_queue_dropped : Metrics → Metrics
inc_queue_dropped m = record m { queue_dropped_total = m.queue_dropped_total + 1 }

abbrev pub set_queue_depth : ℕ → Metrics → Metrics
set_queue_depth depth m = record m { queue_depth = depth }

abbrev pub inc_requests : Metrics → Metrics
inc_requests m = record m { requests_total = m.requests_total + 1 }

abbrev pub inc_success : ℕ → Metrics → Metrics
inc_success count m = record m { success_total = m.success_total + count }

abbrev pub inc_retry : Metrics → Metrics
inc_retry m = record m { retry_total = m.retry_total + 1 }

abbrev pub inc_failure : Metrics → Metrics
inc_failure m = record m { failure_total = m.failure_total + 1 }

abbrev pub inc_circuit_open : Metrics → Metrics
inc_circuit_open m = record m { circuit_open_total = m.circuit_open_total + 1 }

abbrev pub set_circuit_state : CircuitState → Metrics → Metrics
set_circuit_state state m = record m { circuit_state = state }

-- an amount of zero changes nothing
abbrev pub inc_dead_letters : ℕ → Metrics → Metrics
inc_dead_letters amount m = record m { dead_letter_total = m.dead_letter_total + amount }
