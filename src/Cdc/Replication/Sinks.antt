-- ===== src/Cdc/Replication/Sinks.antt =====
-- What every call of the handler keeps of its state, a run of the client keeps.
use mathlib.Core.Path.{subst}
use dbirth.Base.{
  ℕ, ◌+◌, ◌%◌, ◌≡◌, sym, Bool, true, false, Option, none, some, List, [], ◌∷◌, inl, inr, ◌==◌,
  Bool-cases, Option-cases, arith,
}
use dbirth.Cdc.Replication.Backoff.{next_delay}
use dbirth.Cdc.Replication.Client.{
  CheckpointStore, Message, Flow, through, returned, raised, World, is_ahead, is_full, record_save,
  persist_checkpoint, see, handle_changes, finish_message, after_changes, handle_message,
  pick_stream, handle_stream, finish_stream, fail, conclude, after_stream, process,
}

module _ (store : CheckpointStore) {D C S : Type 0} (decode : Message D → Option (List C))
    (handler : C → S → Bool × S) (P : S → Type 0)
    (keeps : (change : C) (s : S) → P s → P (handler change s).1) where
  open store use {State, load, save}

  abbrev W : Type 0
  W = World store decode handler

  abbrev Keeps : W → Type 0
  Keeps w = P w.sink

  record_sink :
      (lsn : ℕ) (saved : Bool) (p : State) (w : W)
      → Keeps w
      → Keeps (record_save store decode handler lsn saved p w).1
  record_sink lsn true p w h = h
  record_sink lsn false p w h = h

  persist_sink :
      (lsn : ℕ) (w : W) → Keeps w → Keeps (persist_checkpoint store decode handler lsn w).1
  unfolding persist_checkpoint
  persist_sink lsn w h =
      elim (Bool-cases (is_ahead store decode handler lsn w.client.last_persisted_lsn)) [
        | inl ahead ↦
            rw (ahead, persist_checkpoint)
              (record_sink lsn (save lsn w.positions).0 (save lsn w.positions).1 w h)
        | inr behind ↦ rw (behind, persist_checkpoint) h
      ]

  changes_sink :
      (most : Option ℕ) (lsn : ℕ) (changes : List C) (w : W)
      → Keeps w
      → Keeps (handle_changes store decode handler most lsn changes w).1
  unfolding handle_changes
  changes_sink most lsn [] w h = h
  changes_sink most lsn (change ∷ changes) w h =
      let w' : W = record w { sink = (handler change w.sink).1; processed = w.processed + 1 } in
      let h' : Keeps w' = keeps change w.sink h in
      elim (Bool-cases (handler change w.sink).0) [
        | inr raises ↦ rw (raises, handle_changes) h'
        | inl returns ↦ elim (Bool-cases (is_full store decode handler most w'.processed)) [
          | inr more ↦ rw (returns, more, handle_changes) (changes_sink most lsn changes w' h')
          | inl full ↦
              rw (returns, full, handle_changes)
                (persist_sink lsn (see store decode handler lsn w') h')
        ]
      ]

  finish_message_sink :
      (lsn : ℕ) (w : W) → Keeps w → Keeps (finish_message store decode handler lsn w).1
  unfolding finish_message
  finish_message_sink lsn w h =
      elim (Bool-cases (w.processed % w.client.checkpoint_interval == 0)) [
        | inl due ↦ rw due (persist_sink lsn (see store decode handler lsn w) h)
        | inr early ↦ rw early h
      ]

  after_changes_sink :
      (lsn : ℕ) (r : Flow × W) → Keeps r.1 → Keeps (after_changes store decode handler lsn r).1
  after_changes_sink lsn (through, w) h = finish_message_sink lsn w h
  after_changes_sink lsn (returned, w) h = h
  after_changes_sink lsn (raised, w) h = h

  message_sink :
      (most : Option ℕ) (m : Option (Message D)) (w : W)
      → Keeps w
      → Keeps (handle_message store decode handler most m w).1
  unfolding handle_message
  message_sink most none w h = h
  message_sink most (some m) w h = elim (Option-cases (decode m)) [
    | inl bad ↦ rw (bad, handle_message) h
    | inr (cs, good) ↦
        rw (good, handle_message)
          (after_changes_sink m.lsn (handle_changes store decode handler most m.lsn cs w)
            (changes_sink most m.lsn cs w h))
  ]

  pick_sink :
      (flow : Flow) (rest here : Flow × W)
      → Keeps rest.1
      → Keeps here.1
      → Keeps (pick_stream store decode handler flow rest here).1
  pick_sink through rest here r h = r
  pick_sink returned rest here r h = h
  pick_sink raised rest here r h = h

  stream_sink :
      (most : Option ℕ) (stream : List (Option (Message D))) (w : W)
      → Keeps w
      → Keeps (handle_stream store decode handler most stream w).1
  unfolding handle_stream
  stream_sink most [] w h = h
  stream_sink most (m ∷ stream) w h =
      let step = handle_message store decode handler most m w in
      let h' = message_sink most m w h in
      pick_sink step.0 (handle_stream store decode handler most stream step.1) step
        (stream_sink most stream step.1 h') h'

  finish_stream_sink : (w : W) → Keeps w → Keeps (finish_stream store decode handler w).1
  unfolding finish_stream
  finish_stream_sink w h = elim (Option-cases w.client.last_seen_lsn) [
    | inl e ↦ rw (e, finish_stream) h
    | inr (lsn, e) ↦
        let same : finish_stream store decode handler w
            ≡ persist_checkpoint store decode handler lsn w =
          ground (arith, e) in
        subst (λ r. Keeps r.1) (sym same) (persist_sink lsn w h)
  ]

  after_stream_sink : (r : Flow × W) → Keeps r.1 → Keeps (after_stream store decode handler r).1
  after_stream_sink (through, w) h = finish_stream_sink w h
  after_stream_sink (returned, w) h = h
  after_stream_sink (raised, w) h = h

  fail_sink : (scale : ℕ → ℕ) (w : W) → Keeps w → Keeps (fail store decode handler scale w)
  unfolding fail
  fail_sink scale w h = elim (Option-cases (next_delay scale w.client.backoff).0) [
    | inl e ↦ rw (e, fail) h
    | inr (d, e) ↦ rw (e, fail) h
  ]

  conclude_sink :
      (scale : ℕ → ℕ) (flow : Flow) (w : W)
      → Keeps w
      → Keeps (conclude store decode handler scale flow w).1
  conclude_sink scale through w h = h
  conclude_sink scale returned w h = h
  conclude_sink scale raised w h = fail_sink scale w h

  pub process_sink :
      (scale : ℕ → ℕ) (most : Option ℕ) (factory : Option ℕ → List (Option (Message D))) (w : W)
      → Keeps w
      → Keeps (process store decode handler scale most factory w).1
  unfolding process
  process_sink scale most factory w h =
      let start : W = record w { processed = 0 } in
      let ran = handle_stream store decode handler most (factory (load w.positions)) start in
      let done = after_stream store decode handler ran in
      conclude_sink scale done.0 done.1
        (after_stream_sink ran (stream_sink most (factory (load w.positions)) start h))
