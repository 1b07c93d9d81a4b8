-- ===== src/Cdc/Listener/Service.antt =====
-- `process_once`, over the replication client with `_handle_change` as its handler.
use dbirth.Base.{
  ℕ, ◌+◌, ◌≡◌, ◌≢◌, refl, sym, String, Bool, false, ◌&&◌, Option, none, some, List, [], ◌∷◌, ◌++◌,
  if◌then◌else◌, ◌==◌, Bool-cases, inl, inr,
}
use mathlib.Core.Path.{subst}
use dbirth.Cdc.Replication.Backoff.{ExponentialBackoff, next_delay}
use dbirth.Cdc.Replication.Client.{CheckpointStore, Message, World, process}
use dbirth.Cdc.Replication.Sinks.{process_sink}
use dbirth.Cdc.Listener.Emitting.{Payload, count_error, flush_ready}
use dbirth.Cdc.Listener.{Listener, handle_change}
use dbirth.Cdc.Listener.Metadata.{ChangeRecord, Provider}
use dbirth.Cdc.Listener.Handling.{
  InStep, GivesDicts, CannotLookUp, Handled-InStep, handle_change-InStep,
}
use dbirth.Cdc.Listener.Flushing.{is_early, flush_ready-Flushed}

module _ (store : CheckpointStore) {D C V T : Type 0}
    (decode : Message D → Option (List (ChangeRecord C))) (int_of : C → Option ℕ)
    (provider : Provider V) (clock : ℕ → ℕ) (format : ℕ → String)
    (sink : Payload V → T → Bool × T) where
  abbrev pub handler : ChangeRecord C → Listener V T → Bool × Listener V T
  handler = handle_change int_of provider clock format

  abbrev pub ServiceWorld : Type 0
  ServiceWorld = World store decode handler

  -- The service: its client over the store, with the listener as what the handler works on.
  pub record Service : Type 0 where
    pub world : ServiceWorld
    pub max_batch_messages : ℕ
    pub idle_sleep : ℕ
    pub sleeps : List ℕ

  abbrev pub sleep : ℕ → Service → Service
  sleep d s = record s { sleeps = s.sleeps ++ d ∷ [] }

  abbrev pub count_records : ℕ → Service → Service
  count_records n s =
      let l = s.world.sink in
      record s {
        world = record s.world {
          sink = record l {
            metrics = record l.metrics { records_total = l.metrics.records_total + n };
          };
        };
      }

  abbrev pub with_listener : Listener V T → Service → Service
  with_listener l s = record s { world = record s.world { sink = l } }

  -- after `_flush_ready`: none is a raise, which leaves the loop
  abbrev pub after_flush : ℕ → Option (ℕ × Listener V T) → Service → Option ℕ × Service
  after_flush processed none s = (none, s)
  after_flush processed (some (emitted, l)) s =
      let s' = with_listener l s in
      (some emitted, (if processed == 0 && emitted == 0 then sleep s'.idle_sleep s' else s'))

  -- `last_error_delay or backoff.next_delay()`; none is `BackoffExhausted`
  abbrev pub error_delay : (ℕ → ℕ) → Service → Option ℕ × ExponentialBackoff
  error_delay scale s = elim s.world.client.last_error_delay [
    | none ↦ next_delay scale s.world.client.backoff
    | some d ↦
        if d == 0 then next_delay scale s.world.client.backoff else (some d, s.world.client.backoff)
  ]

  abbrev pub with_backoff : ExponentialBackoff → Service → Service
  with_backoff b s = record s {
    world = record s.world { client = record s.world.client { backoff = b } };
  }

  -- the `except` clause: the error is counted once the delay is known
  abbrev pub after_error : Option ℕ × ExponentialBackoff → Service → Option ℕ × Service
  after_error (none, b) s = (none, with_backoff b s)
  after_error (some d, b) s =
      let s' = with_backoff b s in (some 0, sleep d (with_listener (count_error s'.world.sink) s'))

  abbrev pub after_process : (ℕ → ℕ) → Option ℕ → Service → Option ℕ × Service
  after_process scale (some processed) s =
      let s' = count_records processed s in
      after_flush processed (flush_ready clock format sink false s'.world.sink) s'
  after_process scale none s = after_error (error_delay scale s) s

  -- `process_once`, on what the stream yields; none is a raise
  unfoldable pub process_once :
      (ℕ → ℕ) → (Option ℕ → List (Option (Message D))) → Service → Option ℕ × Service
  process_once scale stream_factory s =
      let (result, world) =
        process store decode handler scale (some s.max_batch_messages) stream_factory s.world in
      after_process scale result (record s { world = world })

  abbrev pub ServiceInStep : Service → Type 0
  ServiceInStep s = InStep s.world.sink

  -- In step, and not a raise.
  abbrev Fine : Option ℕ × Service → Type 0
  Fine r = (r.0 ≢ none) × ServiceInStep r.1

  flushed_step :
      (processed : ℕ) (s : Service) (r : Option (ℕ × Listener V T)) (emitted : ℕ) (l : Listener V T)
      → r ≡ some (emitted, l)
      → InStep l
      → Fine (after_flush processed r s)
  flushed_step processed s r emitted l e h =
      subst (λ x. Fine (after_flush processed x s)) (sym e)
        (elim (Bool-cases (processed == 0 && emitted == 0)) [
          | inl idle ↦ rw (idle) (λ clash. absurd (cc (clash)), h)
          | inr busy ↦ rw (busy) (λ clash. absurd (cc (clash)), h)
        ])

  ready_step :
      (processed : ℕ) (s : Service)
      → ServiceInStep s
      → Fine (after_flush processed (flush_ready clock format sink false s.world.sink) s)
  unfolding flush_ready
  ready_step processed s h =
      let l = s.world.sink in
      elim (Bool-cases (is_early format sink false (clock l.readings) l)) [
        | inl early ↦
            flushed_step processed s (flush_ready clock format sink false l) 0
              (record l { readings = l.readings + 1 }) (rw (early, flush_ready) refl)
              (record { accumulator = h.accumulator; buffer = h.buffer; covers = h.covers })
        | inr late ↦
            let (emitted, l', ran, flushed) =
              flush_ready-Flushed format sink clock false l h late in
            flushed_step processed s (flush_ready clock format sink false l) emitted l' ran
              flushed.in_step
      ]

  error_step :
      (r : Option ℕ × ExponentialBackoff) (s : Service)
      → ServiceInStep s
      → ServiceInStep (after_error r s).1
  error_step (none, b) s h = h
  error_step (some d, b) s h = record {
    accumulator = h.accumulator;
    buffer = h.buffer;
    covers = h.covers;
  }

  abbrev Ends : Option ℕ → Option ℕ × Service → Type 0
  Ends result r = ServiceInStep r.1 × (result ≢ none → r.0 ≢ none)

  result_step :
      (scale : ℕ → ℕ) (result : Option ℕ) (s : Service)
      → ServiceInStep s
      → Ends result (after_process scale result s)
  result_step scale none s h = (error_step (error_delay scale s) s h, λ clash. absurd (clash refl))
  result_step scale (some processed) s h =
      let (fine, step) =
        ready_step processed (count_records processed s)
          (record { accumulator = h.accumulator; buffer = h.buffer; covers = h.covers }) in
      (step, λ _. fine)

  -- Whatever the stream brings, whatever the lookups, the handler and the sink do, and however the
  -- replication client ends, a round of the service leaves the accumulator and the buffer valid,
  -- with the diffs of every waiting metric in the accumulator; and the round does not raise unless
  -- the client did.
  pub process_once-InStep :
      (scale : ℕ → ℕ) (stream_factory : Option ℕ → List (Option (Message D))) (s : Service)
      → GivesDicts provider
      → ServiceInStep s
      → let (result, s') = process_once scale stream_factory s in
        ServiceInStep s'
        × ((process store decode handler scale (some s.max_batch_messages) stream_factory s.world).0
              ≢ none
            → result ≢ none)
  unfolding process_once
  process_once-InStep scale stream_factory s dicts h =
      let r =
        process store decode handler scale (some s.max_batch_messages) stream_factory s.world in
      result_step scale r.0 (record s { world = r.1 })
        (process_sink store decode handler InStep
          (λ change l k.
            Handled-InStep (CannotLookUp int_of provider change) l
              (handle_change int_of provider clock format change l)
              (handle_change-InStep int_of provider clock format change l dicts k))
          scale (some s.max_batch_messages) stream_factory s.world h)
