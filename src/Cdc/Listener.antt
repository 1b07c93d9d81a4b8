-- ===== src/Cdc/Listener.antt =====
-- `CDCListenerService` (cdc/service.py): changes become diff events in the accumulator and updates in
-- the debounce buffer, here, and what has been quiet for the window is handed to the sink, in Emitting.
-- The metadata provider, the sink, `int` on a decoded value and the formatting of a timestamp are
-- parameters. The n-th reading of the clock is `clock n`, in ticks.
pub mod Metadata
pub mod Handling
pub mod Emitting
pub mod Payloads
pub mod Flushing
pub mod Service
mod Tests
use Prim.Native.String
use dbirth.Base.{
  ℕ, ◌+◌, String, Bool, true, false, Option, none, some, List, [], ◌∷◌, if◌then◌else◌,
}
use dbirth.Base.Dict.{string_key}
use dbirth.Base.Text.{decimal}
use text.Mathlib.Text.{◌==◌ as str_eq}
use dbirth.Cdc.Diffing.{DiffEvent, DiffAccumulator, apply}
use dbirth.Cdc.Debounce.{DebounceBuffer, Update, add_update}
use dbirth.Cdc.Listener.Metadata.{
  ChangeColumn, ChangeRecord, MetricIdentity, MetricVersionSnapshot, Provider,
}

-- The values of `extras`.
pub data Extra : Type 0 where
  metric_id : ℕ → Extra
  canary_id : String → Extra
  changed_at : ℕ → Extra

-- `CDCListenerMetrics`. The drops, flushes and depth that its adapter mirrors are those of the
-- buffer's own metrics.
pub record Metrics : Type 0 where
  pub records_total : ℕ
  pub events_total : ℕ
  pub payloads_total : ℕ
  pub errors_total : ℕ

pub record Listener (V T : Type 0) : Type 0 where
  pub accumulator : DiffAccumulator V
  pub buffer : DebounceBuffer V Extra
  pub metrics : Metrics
  pub flush_interval : ℕ
  pub last_flush_ts : ℕ
  -- the clock's readings so far, and what the sink works on
  pub readings : ℕ
  pub sink_state : T

module _ {C : Type 0} (int_of : C → Option ℕ) where
  -- the first `metric_id` of the columns: the outer none is a raise of `int`
  unfoldable pub find_metric_id : List (ChangeColumn C) → Option (Option ℕ)
  find_metric_id [] = some none
  find_metric_id (column ∷ columns) =
      let rest = find_metric_id columns in
      if str_eq column.name "metric_id"
      then elim (int_of column.value) [ none ↦ none | some n ↦ some (some n) ]
      else rest

  abbrev pub or_old : Option (Option ℕ) → List (ChangeColumn C) → Option (Option ℕ)
  or_old none old = none
  or_old (some (some n)) old = some (some n)
  or_old (some none) old = find_metric_id old

  -- `_extract_metric_id`; `old_columns` is empty for None
  unfoldable pub extract_metric_id : ChangeRecord C → Option (Option ℕ)
  unfolding find_metric_id
  extract_metric_id change = or_old (find_metric_id change.columns) change.old_columns

module _ {V : Type 0} where
  abbrev pub event_of : (ℕ → String) → ℕ → MetricIdentity → MetricVersionSnapshot V → DiffEvent V
  event_of format metric identity snapshot = record {
    event_id = String.◌++◌ (decimal metric) (String.◌++◌ ":" (decimal snapshot.version));
    uns_path = identity.uns_path;
    version = snapshot.version;
    actor = snapshot.actor;
    changes = snapshot.diff;
    timestamp = format snapshot.changed_at;
  }

  abbrev pub update_of : ℕ → ℕ → MetricIdentity → MetricVersionSnapshot V → String → Update V Extra
  update_of now metric identity snapshot event_id = record {
    diff = snapshot.diff;
    version = some snapshot.version;
    actor = some snapshot.actor;
    event_id = some event_id;
    timestamp = some now;
    extras =
        ("metric_id", metric_id metric)
        ∷ ("canary_id", canary_id identity.canary_id)
        ∷ ("changed_at", changed_at snapshot.changed_at)
        ∷ [];
  }

module _ {V T : Type 0} where
  abbrev pub count_event : Listener V T → Listener V T
  count_event l = record l {
    metrics = record l.metrics { events_total = l.metrics.events_total + 1 };
  }

  abbrev pub after_add : Option (DebounceBuffer V Extra) → Listener V T → Bool × Listener V T
  after_add none l = (false, l)
  after_add (some buffer) l = (true, count_event (record l { buffer = buffer }))

  -- the end of `_handle_change`, on whether the event was new
  abbrev pub after_apply :
      Bool → ℕ → String → (ℕ → Update V Extra) → Listener V T → Bool × Listener V T
  after_apply false now path update l = (true, l)
  after_apply true now path update l =
      after_add (add_update path (update now) now l.buffer) (record l { readings = l.readings + 1 })

  -- `_handle_change` from the event on
  unfoldable pub take_event :
      (ℕ → ℕ)
      → (ℕ → String)
      → ℕ
      → MetricIdentity
      → MetricVersionSnapshot V
      → Listener V T
      → Bool × Listener V T
  take_event clock format metric identity snapshot l =
      let event = event_of format metric identity snapshot in
      let (applied, accumulator) = apply event l.accumulator in
      after_apply applied (clock l.readings) identity.uns_path
        (λ now. update_of now metric identity snapshot event.event_id)
        (record l { accumulator = accumulator })

  -- `_handle_change`; false is a raise
  unfoldable pub handle_change :
      {C : Type 0}
      → (C → Option ℕ)
      → Provider V
      → (ℕ → ℕ)
      → (ℕ → String)
      → ChangeRecord C
      → Listener V T
      → Bool × Listener V T
  handle_change int_of provider clock format change l = elim (extract_metric_id int_of change) [
    | none ↦ (false, l)
    | some none ↦ (true, l)
    | some (some metric) ↦ elim (provider.get_identity metric) [
      | none ↦ (false, l)
      | some none ↦ (true, l)
      | some (some identity) ↦ elim (provider.get_version_snapshot metric) [
        | none ↦ (false, l)
        | some none ↦ (true, l)
        | some (some snapshot) ↦ take_event clock format metric identity snapshot l
      ]
    ]
  ]
