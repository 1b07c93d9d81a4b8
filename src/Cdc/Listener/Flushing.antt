-- ===== src/Cdc/Listener/Flushing.antt =====
-- `_flush_ready` hands on every entry that is due, and only those.
use mathlib.Core.Path.{subst}
use dbirth.Base.{
  ℕ, ◌+◌, ◌≡◌, inl, inr, refl, sym, ap, ◌∙◌, String, Bool, true, false, ◌||◌, some, List, [], ◌∷◌,
  arith, ltb, length, Bool-cases, if◌then◌else◌,
}
use dbirth.Base.Dict.{Dict, get, keys, contains, IsDistinct, string_key}
use dbirth.Cdc.Diffing.{DiffAccumulator, pop}
use dbirth.Cdc.Diffing.Merge
use dbirth.Cdc.Diffing.Snapshots.{pop_present, pop-IsValid}
use dbirth.Cdc.Debounce.{DebounceEntry, Emission}
use dbirth.Cdc.Debounce.Due.{is_due, emission}
use dbirth.Cdc.Debounce.Invariant
use dbirth.Cdc.Debounce.Flush.{ready, waiting, flush_due_exact}
use dbirth.Cdc.Listener.{Listener, Extra}
use dbirth.Cdc.Listener.Emitting.{
  Payload, build_payload, after_sink, emit_all, finish_flush, flush_at, flush_ready,
}
use dbirth.Cdc.Listener.Handling.{IsSome, Covers, InStep}
use dbirth.Cdc.Listener.Payloads.{
  get_some, pop_others, absent_cons, Covers-pop, Agrees, Agrees-pop, Agrees-refl, ArePayloads,
  count_sent, hand_all, so_far,
}

module _ {V : Type 0} where
  module _ {T : Type 0} (format : ℕ → String) (sink : Payload V → T → Bool × T) where
    -- What the loop over these payloads leaves behind: each was handed to the sink, once, and is
    -- counted as emitted or as an error.
    record Emitted (entries : List (Emission V Extra)) (d : Dict String (DebounceEntry V Extra))
        (acc : DiffAccumulator V) (s s' : ℕ × Listener V T) : Type 0 where
      payloads : List (Payload V)
      reported : ArePayloads format acc entries payloads
      handed : so_far s' ≡ hand_all sink payloads (so_far s)
      all : s'.0 + s'.1.metrics.errors_total ≡ s.0 + s.1.metrics.errors_total + length entries
      counted : s'.1.metrics.payloads_total + s.0 ≡ s.1.metrics.payloads_total + s'.0
      buffer : s'.1.buffer ≡ s.1.buffer
      valid : Merge.IsValid s'.1.accumulator
      covers : Covers d s'.1.accumulator.entries

    sink_step :
        (sent : Bool) (t : T) (s : ℕ × Listener V T)
        → let s' = after_sink sent t s in
          (s'.0 + s'.1.metrics.errors_total ≡ s.0 + s.1.metrics.errors_total + 1)
          × (s'.1.metrics.payloads_total + s.0 ≡ s.1.metrics.payloads_total + s'.0)
          × (s'.1.buffer ≡ s.1.buffer)
          × (s'.1.accumulator ≡ s.1.accumulator)
          × (so_far s' ≡ (count_sent sent s.0, t))
    sink_step true t s = (omega arith, omega arith, refl, refl, refl)
    sink_step false t s = (omega arith, omega arith, refl, refl, refl)

    module _ (current window : ℕ) (acc₀ : DiffAccumulator V) where
      abbrev Goal : Dict String (DebounceEntry V Extra) → ℕ × Listener V T → Type 0
      Goal d s =
          (s' : ℕ × Listener V T) × (emit_all format sink (ready current window d) s ≡ some s')
          × Emitted (ready current window d) (waiting current window d) acc₀ s s'
          × ((j : String)
              → contains j (keys d) ≡ false
              → get j s'.1.accumulator.entries ≡ get j s.1.accumulator.entries)

      due_step :
          (k : String) (e : DebounceEntry V Extra) (d : Dict String (DebounceEntry V Extra))
          (s : ℕ × Listener V T)
          → contains k (keys d) ≡ false
          → Merge.IsValid s.1.accumulator
          → Covers ((k, e) ∷ d) s.1.accumulator.entries
          → Agrees ((k, e) ∷ d) s.1.accumulator acc₀
          → ((s' : ℕ × Listener V T)
              → Merge.IsValid s'.1.accumulator
              → Covers d s'.1.accumulator.entries
              → Agrees d s'.1.accumulator acc₀
              → Goal d s')
          → (s' : ℕ × Listener V T) × (emit_all format sink
                (emission k e ∷ ready current window d)
                s
              ≡ some s')
            × Emitted (emission k e ∷ ready current window d) (waiting current window d) acc₀ s s'
            × ((j : String)
                → contains j (keys ((k, e) ∷ d)) ≡ false
                → get j s'.1.accumulator.entries ≡ get j s.1.accumulator.entries)
      unfolding emit_all contains
      due_step k e d s new v c a rest =
          let acc = s.1.accumulator in
          let (entry, found) = get_some (get k acc.entries) c.0 in
          let (snapshot, popped, reports, merged, gone) = pop_present k acc entry v found in
          let l' : Listener V T = record s.1 { accumulator = (pop k acc).1 } in
          let (sent, t) = sink (build_payload format (emission k e) snapshot) s.1.sink_state in
          let s₁ = after_sink sent t (s.0, l') in
          let (one, paid, buffer, same, told) = sink_step sent t (s.0, l') in
          let (s', ran, emitted, others) =
            rest s₁ (subst Merge.IsValid (sym same) (pop-IsValid k acc v))
              (subst (λ x. Covers d x.entries) (sym same) (Covers-pop k d acc new c.1))
              (subst (λ x. Agrees d x acc₀) (sym same) (Agrees-pop k d acc acc₀ new a.1)) in
          (
            s',
            rw (popped, emit_all) ran,
            record {
              payloads = build_payload format (emission k e) snapshot ∷ emitted.payloads;
              reported = (
                record {
                  diffs = entry;
                  found = sym a.0 ∙ found;
                  snapshot = snapshot;
                  reports = reports;
                  built = refl;
                },
                emitted.reported,
              );
              handed = emitted.handed ∙ ap (hand_all sink emitted.payloads) told;
              all = omega (arith, emitted.all, one);
              counted = omega (arith, emitted.counted, paid);
              buffer = emitted.buffer ∙ buffer;
              valid = emitted.valid;
              covers = emitted.covers;
            },
            λ j absent.
                let (other, later) = absent_cons k j d absent in
                others j later ∙ ap (λ a. get j a.entries) same ∙ pop_others k j acc other,
          )

      loop_lem :
          (d : Dict String (DebounceEntry V Extra)) (s : ℕ × Listener V T)
          → IsDistinct (keys d)
          → Merge.IsValid s.1.accumulator
          → Covers d s.1.accumulator.entries
          → Agrees d s.1.accumulator acc₀
          → Goal d s
      unfolding emit_all contains
      loop_lem [] s u v c a = (
        s,
        refl,
        record {
          payloads = [];
          reported = tt;
          handed = refl;
          all = omega arith;
          counted = omega arith;
          buffer = refl;
          valid = v;
          covers = tt;
        },
        λ j h. refl,
      )
      loop_lem ((k, e) ∷ d) s u v c a = elim (Bool-cases (is_due current window e)) [
        | inl due ↦
            rw (due) (due_step k e d s u.0 v c a (λ s' v' c' a'. loop_lem d s' u.1 v' c' a'))
        | inr quiet ↦
            let (s', ran, emitted, others) = loop_lem d s u.1 v c.1 a.1 in
            rw (quiet) (
              s',
              ran,
              record {
                payloads = emitted.payloads;
                reported = emitted.reported;
                handed = emitted.handed;
                all = emitted.all;
                counted = emitted.counted;
                buffer = emitted.buffer;
                valid = emitted.valid;
                covers = (subst IsSome (sym (others k u.0)) c.0, emitted.covers);
              },
              λ j absent. others j (absent_cons k j d absent).1,
            )
      ]

    -- `_flush_ready` returns before it looks at the buffer.
    abbrev pub is_early : Bool → ℕ → Listener V T → Bool
    is_early force now l = if force then false else ltb now (l.last_flush_ts + l.flush_interval)

    -- The payloads of the entries that a flush at the clock's time takes.
    abbrev pub due_entries : Bool → ℕ → Listener V T → List (Emission V Extra)
    due_entries force now l =
        ready (flush_at force now l.buffer) l.buffer.window_seconds l.buffer.entries

    -- What a flush leaves behind.
    pub record Flushed (force : Bool) (now emitted : ℕ) (l l' : Listener V T) : Type 0 where
      pub payloads : List (Payload V)
      pub reported : ArePayloads format l.accumulator (due_entries force now l) payloads
      pub handed : so_far (emitted, l') ≡ hand_all sink payloads (so_far (0, l))
      pub all :
          emitted + l'.metrics.errors_total
          ≡ l.metrics.errors_total + length (due_entries force now l)
      pub counted : l'.metrics.payloads_total ≡ l.metrics.payloads_total + emitted
      pub left :
          l'.buffer.entries
          ≡ waiting (flush_at force now l.buffer) l.buffer.window_seconds l.buffer.entries
      pub in_step : InStep l'

    finish_same :
        (force : Bool) (now emitted : ℕ) (l : Listener V T)
        → (l' : Listener V T) × (finish_flush force now (some (emitted, l)) ≡ some (emitted, l'))
          × (l'.buffer ≡ l.buffer)
          × (l'.accumulator ≡ l.accumulator)
          × (l'.metrics ≡ l.metrics)
          × (l'.sink_state ≡ l.sink_state)
    finish_same force now emitted l = elim (Bool-cases (force || ltb 0 emitted)) [
      | inl b ↦ (record l { last_flush_ts = now }, rw (b) refl, refl, refl, refl, refl)
      | inr b ↦ (l, rw (b) refl, refl, refl, refl, refl)
    ]

    -- While the accumulator and the buffer are in step, a flush that is not early raises nothing.
    -- For every entry that is due, in their order, the sink is called once with a payload that is built
    -- of the entry and of a snapshot that reports the diffs of its metric in the accumulator; the
    -- result counts the calls that return, and the state of the sink is the one that they leave. Each
    -- is counted as emitted or as an error of the sink; the other entries stay in the buffer, in step
    -- with the accumulator.
    pub flush_ready-Flushed :
        (clock : ℕ → ℕ) (force : Bool) (l : Listener V T)
        → InStep l
        → is_early force (clock l.readings) l ≡ false
        → (emitted : ℕ) × (l' : Listener V T) × (flush_ready clock format sink force l
            ≡ some (emitted, l'))
          × Flushed force (clock l.readings) emitted l l'
    unfolding flush_ready
    flush_ready-Flushed clock force l s late =
        let now = clock l.readings in
        let at = flush_at force now l.buffer in
        let window = l.buffer.window_seconds in
        let (b, flushed, left, valid, parts) = flush_due_exact at l.buffer s.buffer in
        let l₁ : Listener V T = record l { readings = l.readings + 1; buffer = b } in
        let ((emitted, l₂), ran, e, others) =
          loop_lem at window l.accumulator l.buffer.entries (0, l₁) s.buffer.aligned.distinct
            s.accumulator s.covers (Agrees-refl l.buffer.entries l.accumulator) in
        let (l₃, finished, buffer, accumulator, metrics, sunk) = finish_same force now emitted l₂ in
        (
          emitted,
          l₃,
          rw (late, flushed, flush_ready) (ap (finish_flush force now) ran ∙ finished),
          record {
            payloads = e.payloads;
            reported = e.reported;
            handed = ap (λ x. (emitted, x)) sunk ∙ e.handed;
            all = omega (arith, e.all, ap (λ m. m.errors_total) metrics);
            counted = omega (arith, e.counted, ap (λ m. m.payloads_total) metrics);
            left = ap (λ x. x.entries) (buffer ∙ e.buffer) ∙ left;
            in_step = record {
              accumulator = subst Merge.IsValid (sym accumulator) e.valid;
              buffer = subst Invariant.IsValid (sym (buffer ∙ e.buffer)) valid;
              covers =
                  subst (λ x. Covers x.entries l₃.accumulator.entries) (sym (buffer ∙ e.buffer))
                    (subst (λ w. Covers w l₃.accumulator.entries) (sym left)
                      (subst (λ a. Covers (waiting at window l.buffer.entries) a.entries)
                        (sym accumulator) e.covers));
            };
          },
        )
