-- ===== src/Cdc/Listener/Tests.antt =====
-- Runs of the listener, and the theorems at concrete inputs.
use mathlib.Core.Path.{subst}
use dbirth.Base.{
  ◌≢◌, ℕ, ◌+◌, ◌≡◌, refl, String, Bool, true, false, Option, none, some, List, [], ◌∷◌, arith,
  if◌then◌else◌, ◌==◌, ◌*◌, ap,
}
use dbirth.Cdc.Replication.Backoff.{ExponentialBackoff}
use dbirth.Cdc.Replication.Client.{Message, open_client, process}
use dbirth.Cdc.Replication.Stores.{in_memory}
use dbirth.Cdc.Listener.Service.{Service, ServiceInStep, process_once, process_once-InStep}
use dbirth.Base.Dict.{keys, IsDistinct, string_key, contains, String-discrete}
use dbirth.Base.Text.{decimal}
use dbirth.Cdc.Listener.{Listener, handle_change}
use dbirth.Cdc.Listener.Emitting.{Payload, flush_ready}
use dbirth.Cdc.Listener.Metadata.{
  ChangeColumn, ChangeRecord, MetricIdentity, MetricVersionSnapshot, Provider,
}
use dbirth.Cdc.Listener.Handling.{
  InStep, GivesDicts, CannotLookUp, Handled, Handled-InStep, handle_change-InStep,
}
use dbirth.Cdc.Listener.Flushing.{Flushed, flush_ready-Flushed}

abbrev identity : MetricIdentity
identity = record {
  metric_id = 7;
  uns_path = "site/pump";
  canary_id = "site.pump";
  device_id = none;
}

abbrev snapshot : MetricVersionSnapshot ℕ
snapshot = record {
  metric_id = 7;
  version = 3;
  actor = "cdc";
  changed_at = 90;
  diff = ("unit", 4) ∷ ("scale", 10) ∷ [];
  previous_version = some 2;
}

-- Metric 7 is known, and the lookup of any other raises.
abbrev provider : Provider ℕ
provider = record {
  get_identity = λ metric. if metric == 7 then some (some identity) else none;
  get_version_snapshot = λ metric. some (some snapshot);
}

abbrev column : String → ℕ → ChangeColumn ℕ
column name value = record { name = name; value = value; type_oid = 20; flags = [] }

abbrev change : ChangeRecord ℕ
change = record {
  kind = "update";
  relation = "uns_meta.metric_versions";
  columns = column "version_id" 3 ∷ column "metric_id" 7 ∷ [];
  old_columns = [];
  lsn = 100;
  commit_timestamp = 90;
}

-- The sink keeps the paths that it was handed.
abbrev sink : Payload ℕ → List String → Bool × List String
sink payload paths = (true, payload.uns_path ∷ paths)

abbrev listener : Listener ℕ (List String)
listener = record {
  accumulator = record { entries = []; seen_event_ids = [] };
  buffer = record {
    window_seconds = 180;
    max_entries = 2;
    metrics = record { counters = []; gauges = [] };
    entries = [];
    sequence = [];
  };
  metrics = record { records_total = 0; events_total = 0; payloads_total = 0; errors_total = 0 };
  flush_interval = 5;
  last_flush_ts = 0;
  readings = 0;
  sink_state = [];
}

abbrev clock : ℕ → ℕ
clock n = 100 + 10 * n

abbrev format : ℕ → String
format t = decimal t

empty-InStep : InStep listener
empty-InStep = record {
  accumulator = record { distinct = tt; merged = tt };
  buffer = record {
    aligned = record { distinct = tt; in_step = refl; named = tt };
    within = omega arith;
  };
  covers = tt;
}

abbrev or_first : Option (Option (MetricVersionSnapshot ℕ)) → MetricVersionSnapshot ℕ
or_first (some (some s)) = s
or_first _ = snapshot

first : IsDistinct (keys snapshot.diff)
unfolding contains String-discrete
first = (refl, (refl, tt))

dicts : GivesDicts provider
dicts metric s e =
    let same : snapshot ≡ s = ap or_first e in subst (λ x. IsDistinct (keys x.diff)) same first

abbrev handled : Bool × Listener ℕ (List String)
handled = handle_change (λ n. some n) provider clock format change listener

handle_change-InStep_example : Handled (CannotLookUp (λ n. some n) provider change) listener handled
handle_change-InStep_example =
    handle_change-InStep (λ n. some n) provider clock format change listener dicts empty-InStep

handled-InStep : InStep handled.1
handled-InStep =
    Handled-InStep (CannotLookUp (λ n. some n) provider change) listener handled
      (handle_change-InStep (λ n. some n) provider clock format change listener dicts empty-InStep)

-- A flush by force does not wait for the window.
flush_ready-Flushed_example :
    (emitted : ℕ) × (l' : Listener ℕ (List String)) × (flush_ready clock format sink true handled.1
      ≡ some (emitted, l'))
    × Flushed format sink true (clock handled.1.readings) emitted handled.1 l'
flush_ready-Flushed_example =
    flush_ready-Flushed format sink clock true handled.1 handled-InStep refl

-- A message carries one change, and 13 cannot be decoded.
abbrev decode : Message ℕ → Option (List (ChangeRecord ℕ))
decode m = if m.payload == 13 then none else some (change ∷ [])

abbrev backoff : ExponentialBackoff
backoff = record {
  base_interval = 5;
  multiplier = 2;
  max_interval = 300;
  max_attempts = none;
  jitter = false;
  attempt = 0;
}

abbrev service : Service (in_memory "cdc") decode (λ n. some n) provider clock format sink
service = record {
  world = record {
    client = open_client 250 backoff;
    positions = [];
    sink = listener;
    processed = 0;
  };
  max_batch_messages = 500;
  idle_sleep = 10;
  sleeps = [];
}

-- Two messages, of which the second cannot be decoded.
abbrev stream : Option ℕ → List (Option (Message ℕ))
stream start =
    some (record { lsn = 100; payload = 1; commit_timestamp = 0 })
    ∷ some (record { lsn = 200; payload = 13; commit_timestamp = 0 })
    ∷ []

process_once-InStep_example :
    let (result, s') =
      process_once
        (in_memory "cdc")
        decode
        (λ n. some n)
        provider
        clock
        format
        sink
        (λ x. x)
        stream
        service in
    ServiceInStep (in_memory "cdc") decode (λ n. some n) provider clock format sink s'
    × ((process
            (in_memory "cdc")
            decode
            (handle_change (λ n. some n) provider clock format)
            (λ x. x)
            (some 500)
            stream
            service.world).0
          ≢ none
        → result ≢ none)
process_once-InStep_example =
    process_once-InStep (in_memory "cdc") decode (λ n. some n) provider clock format sink (λ x. x)
      stream service dicts empty-InStep
