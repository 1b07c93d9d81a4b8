-- ===== src/Cdc/Replication/Stored.antt =====
-- What `process` does to the stored position: each save raises it to a position that may be stored, so
-- a property that every such step keeps holds at the end, however the run ends.
use dbirth.Base.{
  ℕ, ◌%◌, ◌+◌, ◌≡◌, refl, sym, Bool, true, false, Option, none, some, List, [], ◌∷◌, arith, All,
  ◌==◌, Bool-cases, Option-cases, inl, inr,
}
use mathlib.Core.Path.{subst}
use dbirth.Cdc.Checkpoint.Saves.{raise_to}
use dbirth.Cdc.Replication.Client.{
  CheckpointStore, Message, Flow, through, returned, raised, World, is_ahead, record_save,
  persist_checkpoint, see, is_full, handle_changes, finish_message, after_changes, handle_message,
  pick_stream, handle_stream, finish_stream, fail, conclude, after_stream, process,
}

-- The last position seen is allowed, if there is one.
abbrev pub Seen : (ℕ → Type 0) → Option ℕ → Type 0
Seen Allowed none = Unit
Seen Allowed (some lsn) = Allowed lsn

abbrev pub MessageAllowed : {D : Type 0} → (ℕ → Type 0) → Option (Message D) → Type 0
MessageAllowed Allowed none = Unit
MessageAllowed Allowed (some m) = Allowed m.lsn

module _ (store : CheckpointStore) {D C S : Type 0} (decode : Message D → Option (List C))
    (handler : C → S → Bool × S) (P : Option ℕ → Type 0) (Allowed : ℕ → Type 0)
    (step : (lsn : ℕ) (o : Option ℕ) → Allowed lsn → P o → P (some (raise_to lsn o)))
    (Q : Option ℕ → Type 0)
    (ahead_step : (lsn : ℕ) (o : Option ℕ)
      → is_ahead store decode handler lsn o ≡ true
      → Q o
      → Q (some lsn)) where
  open store use {State, load, save}

  abbrev pub W : Type 0
  W = World store decode handler

  -- The stored position satisfies `P`, the one that the client last persisted `Q`, and the last seen one
  -- may be stored.
  pub record Holds (w : W) : Type 0 where
    pub stored : P (load w.positions)
    pub persisted : Q w.client.last_persisted_lsn
    pub seen : Seen Allowed w.client.last_seen_lsn

  persist-Holds :
      (lsn : ℕ) (w : W)
      → Allowed lsn
      → Holds w
      → Holds (persist_checkpoint store decode handler lsn w).1
  unfolding persist_checkpoint
  persist-Holds lsn w a h =
      elim (Bool-cases (is_ahead store decode handler lsn w.client.last_persisted_lsn)) [
        | inr behind ↦ rw behind h
        | inl ahead ↦ rw ahead (
            go (save lsn w.positions).0 (save lsn w.positions).1
              (subst P (sym (store.load-save lsn w.positions))
                (step lsn (load w.positions) a h.stored))
              (ahead_step lsn w.client.last_persisted_lsn ahead h.persisted))
      ]
    where
      go :
          (saved : Bool) (p : State)
          → P (load p)
          → Q (some lsn)
          → Holds (record_save store decode handler lsn saved p w).1
      go true p k q = record { stored = k; persisted = q; seen = h.seen }
      go false p k q = record { stored = k; persisted = h.persisted; seen = h.seen }

  see-Holds : (lsn : ℕ) (w : W) → Allowed lsn → Holds w → Holds (see store decode handler lsn w)
  see-Holds lsn w a h = record { stored = h.stored; persisted = h.persisted; seen = a }

  changes-Holds :
      (most : Option ℕ) (lsn : ℕ) (changes : List C) (w : W)
      → Allowed lsn
      → Holds w
      → Holds (handle_changes store decode handler most lsn changes w).1
  unfolding handle_changes
  changes-Holds most lsn [] w a h = h
  changes-Holds most lsn (change ∷ changes) w a h =
      let w' : W = record w { sink = (handler change w.sink).1; processed = w.processed + 1 } in
      let h' : Holds w' = record { stored = h.stored; persisted = h.persisted; seen = h.seen } in
      elim (Bool-cases (handler change w.sink).0) [
        | inr raises ↦ rw (raises, handle_changes) h'
        | inl returns ↦ elim (Bool-cases (is_full store decode handler most w'.processed)) [
          | inr more ↦ rw (returns, more, handle_changes) (changes-Holds most lsn changes w' a h')
          | inl full ↦
              rw (returns, full, handle_changes)
                (persist-Holds lsn (see store decode handler lsn w') a (see-Holds lsn w' a h'))
        ]
      ]

  pub finish_message-Holds :
      (lsn : ℕ) (w : W)
      → Allowed lsn
      → Holds w
      → Holds (finish_message store decode handler lsn w).1
  unfolding finish_message
  finish_message-Holds lsn w a h =
      elim (Bool-cases (w.processed % w.client.checkpoint_interval == 0)) [
        | inl due ↦
            rw due (persist-Holds lsn (see store decode handler lsn w) a (see-Holds lsn w a h))
        | inr early ↦ rw early (see-Holds lsn w a h)
      ]

  after_changes-Holds :
      (lsn : ℕ) (r : Flow × W)
      → Allowed lsn
      → Holds r.1
      → Holds (after_changes store decode handler lsn r).1
  after_changes-Holds lsn (through, w) a h = finish_message-Holds lsn w a h
  after_changes-Holds lsn (returned, w) a h = h
  after_changes-Holds lsn (raised, w) a h = h

  pub message-Holds :
      (most : Option ℕ) (m : Option (Message D)) (w : W)
      → MessageAllowed Allowed m
      → Holds w
      → Holds (handle_message store decode handler most m w).1
  unfolding handle_message
  message-Holds most none w a h = h
  message-Holds most (some m) w a h = elim (Option-cases (decode m)) [
    | inl bad ↦ rw (bad, handle_message) h
    | inr (changes, good) ↦
        rw (good, handle_message)
          (after_changes-Holds m.lsn (handle_changes store decode handler most m.lsn changes w) a
            (changes-Holds most m.lsn changes w a h))
  ]

  pub stream-Holds :
      (most : Option ℕ) (stream : List (Option (Message D))) (w : W)
      → All (MessageAllowed Allowed) stream
      → Holds w
      → Holds (handle_stream store decode handler most stream w).1
  unfolding handle_stream
  stream-Holds most [] w a h = h
  stream-Holds most (m ∷ stream) w a h =
      let h' = message-Holds most m w a.0 h in
      go (handle_message store decode handler most m w).0 h'
        (stream-Holds most stream (handle_message store decode handler most m w).1 a.1 h')
    where
      go :
          (flow : Flow)
          → Holds (handle_message store decode handler most m w).1
          → Holds
              (handle_stream store decode handler most stream
                (handle_message store decode handler most m w).1).1
          → Holds
              (pick_stream store decode handler flow
                (handle_stream store decode handler most stream
                  (handle_message store decode handler most m w).1)
                (handle_message store decode handler most m w)).1
      go through k l = l
      go returned k l = k
      go raised k l = k

  finish_stream-Holds : (w : W) → Holds w → Holds (finish_stream store decode handler w).1
  unfolding finish_stream
  finish_stream-Holds w h = elim (Option-cases w.client.last_seen_lsn) [
    | inl nothing ↦ rw (nothing, finish_stream) h
    | inr (lsn, seen) ↦
        rw (seen, finish_stream) (persist-Holds lsn w (subst (Seen Allowed) seen h.seen) h)
  ]

  after_stream-Holds : (r : Flow × W) → Holds r.1 → Holds (after_stream store decode handler r).1
  after_stream-Holds (through, w) h = finish_stream-Holds w h
  after_stream-Holds (returned, w) h = h
  after_stream-Holds (raised, w) h = h

  pub conclude-stored :
      (scale : ℕ → ℕ) (flow : Flow) (w : W)
      → (conclude store decode handler scale flow w).1.positions ≡ w.positions
  unfolding fail
  conclude-stored scale through w = refl
  conclude-stored scale returned w = refl
  conclude-stored scale raised w = ground arith

  conclude-persisted :
      (scale : ℕ → ℕ) (flow : Flow) (w : W)
      → (conclude store decode handler scale flow w).1.client.last_persisted_lsn
        ≡ w.client.last_persisted_lsn
  unfolding fail
  conclude-persisted scale through w = refl
  conclude-persisted scale returned w = refl
  conclude-persisted scale raised w = ground arith

  -- What holds at the end of a run.
  abbrev pub Ended : W → Type 0
  Ended w = P (load w.positions) × Q w.client.last_persisted_lsn

  pub process-Ended :
      (scale : ℕ → ℕ) (most : Option ℕ) (stream_factory : Option ℕ → List (Option (Message D)))
      (w : W)
      → All (MessageAllowed Allowed) (stream_factory (load w.positions))
      → Holds w
      → Ended (process store decode handler scale most stream_factory w).1
  unfolding process
  process-Ended scale most stream_factory w a h =
      let start : W = record w { processed = 0 } in
      let stream = stream_factory (load w.positions) in
      let r =
        after_stream store decode handler (handle_stream store decode handler most stream start) in
      let holds = after_stream-Holds (handle_stream store decode handler most stream start) (
        stream-Holds most stream start a
          (record { stored = h.stored; persisted = h.persisted; seen = h.seen })) in
      (
        subst (λ p. P (load p)) (sym (conclude-stored scale r.0 r.1)) holds.stored,
        subst Q (sym (conclude-persisted scale r.0 r.1)) holds.persisted,
      )
