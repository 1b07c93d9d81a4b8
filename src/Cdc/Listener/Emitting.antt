-- ===== src/Cdc/Listener/Emitting.antt =====
-- `_flush_ready` and `_build_payload`: what the buffer flushes is popped from the accumulator and handed
-- to the sink.
use dbirth.Base.{
  ℕ, ◌+◌, ◌-◌, String, Bool, true, false, ◌||◌, Option, none, some, List, [], ◌∷◌, if◌then◌else◌,
  ltb,
}
use dbirth.Base.Dict.{get, string_key}
use dbirth.Cdc.Diffing.{Snapshot, pop}
use dbirth.Cdc.Debounce.{DebounceBuffer, Emission}
use dbirth.Cdc.Debounce.Due.{flush_due}
use dbirth.Cdc.Listener.{Extra, Listener, metric_id, canary_id, changed_at}

-- What is handed to the sink.
pub record Payload (V : Type 0) : Type 0 where
  pub metric : Option ℕ
  pub uns_path : String
  pub canary : Option String
  pub snapshot : Snapshot V
  pub event_ids : List String
  pub debounce_first_seen : ℕ
  pub debounce_last_update : ℕ
  pub debounce_span_seconds : ℕ
  pub changed : Option String

abbrev pub metric_of : Option Extra → Option ℕ
metric_of (some (metric_id n)) = some n
metric_of _ = none

abbrev pub canary_of : Option Extra → Option String
canary_of (some (canary_id s)) = some s
canary_of _ = none

abbrev pub changed_of : (ℕ → String) → Option Extra → Option String
changed_of format (some (changed_at t)) = some (format t)
changed_of format _ = none

module _ {V : Type 0} where
  -- `_build_payload`
  unfoldable pub build_payload : (ℕ → String) → Emission V Extra → Snapshot V → Payload V
  build_payload format entry snapshot = record {
    metric = metric_of (get "metric_id" entry.extras);
    uns_path = snapshot.uns_path;
    canary = canary_of (get "canary_id" entry.extras);
    snapshot = snapshot;
    event_ids = entry.event_ids;
    debounce_first_seen = entry.first_seen;
    debounce_last_update = entry.last_update;
    debounce_span_seconds = entry.last_update - entry.first_seen;
    changed = changed_of format (get "changed_at" entry.extras);
  }

  abbrev pub flush_at : Bool → ℕ → DebounceBuffer V Extra → ℕ
  flush_at true now b = now + b.window_seconds
  flush_at false now b = now

module _ {V T : Type 0} where
  abbrev pub count_error : Listener V T → Listener V T
  count_error l = record l {
    metrics = record l.metrics { errors_total = l.metrics.errors_total + 1 };
  }

  abbrev pub count_payload : Listener V T → Listener V T
  count_payload l = record l {
    metrics = record l.metrics { payloads_total = l.metrics.payloads_total + 1 };
  }

  -- what a call of the sink comes to: false is a raise
  abbrev pub after_sink : Bool → T → ℕ × Listener V T → ℕ × Listener V T
  after_sink true t (emitted, l) = (emitted + 1, count_payload (record l { sink_state = t }))
  after_sink false t (emitted, l) = (emitted, count_error (record l { sink_state = t }))

  -- one round of the loop of `_flush_ready`, on the popped snapshot; none is a raise of `pop`
  abbrev pub emit :
      (ℕ → String)
      → (Payload V → T → Bool × T)
      → Emission V Extra
      → Option (Option (Snapshot V))
      → ℕ × Listener V T
      → Option (ℕ × Listener V T)
  emit format sink entry none s = none
  emit format sink entry (some none) s = some s
  emit format sink entry (some (some snapshot)) s =
      let (sent, t) = sink (build_payload format entry snapshot) s.1.sink_state in
      some (after_sink sent t s)

  unfoldable pub emit_all :
      (ℕ → String)
      → (Payload V → T → Bool × T)
      → List (Emission V Extra)
      → ℕ × Listener V T
      → Option (ℕ × Listener V T)
  emit_all format sink [] s = some s
  emit_all format sink (entry ∷ entries) (emitted, l) =
      let (taken, accumulator) = pop entry.metric l.accumulator in
      elim (emit format sink entry taken (emitted, record l { accumulator = accumulator })) [
        | none ↦ none
        | some s ↦ emit_all format sink entries s
      ]

  abbrev pub finish_flush : Bool → ℕ → Option (ℕ × Listener V T) → Option (ℕ × Listener V T)
  finish_flush force now none = none
  finish_flush force now (some (emitted, l)) =
      some (emitted, (if force || ltb 0 emitted then record l { last_flush_ts = now } else l))

  -- `_flush_ready` from the buffer's flush on
  abbrev pub flush_from :
      (ℕ → String)
      → (Payload V → T → Bool × T)
      → Bool
      → ℕ
      → Option (DebounceBuffer V Extra × List (Emission V Extra))
      → Listener V T
      → Option (ℕ × Listener V T)
  flush_from format sink force now none l = none
  flush_from format sink force now (some (buffer, entries)) l =
      finish_flush force now (emit_all format sink entries (0, record l { buffer = buffer }))

  -- `_flush_ready`; none is a raise
  unfoldable pub flush_ready :
      (ℕ → ℕ)
      → (ℕ → String)
      → (Payload V → T → Bool × T)
      → Bool
      → Listener V T
      → Option (ℕ × Listener V T)
  flush_ready clock format sink force l =
      let now = clock l.readings in
      let l' : Listener V T = record l { readings = l.readings + 1 } in
      let early = if force then false else ltb now (l.last_flush_ts + l.flush_interval) in
      if early
      then some (0, l')
      else flush_from format sink force now (flush_due (flush_at force now l.buffer) l.buffer) l'
