-- ===== src/Cdc/Replication/Client.antt =====
-- `LogicalReplicationClient`. The decoder and the handler are parameters, and so is the checkpoint
-- store, behind its interface. The stream is the list of what its iterator yields.
use dbirth.Base.{
  ℕ, ◌+◌, ◌%◌, ◌≡◌, max, Bool, true, false, Option, none, some, List, [], ◌∷◌, if◌then◌else◌, leb,
  ltb, ◌==◌,
}
use dbirth.Cdc.Checkpoint.Saves.{raise_to}
use dbirth.Cdc.Replication.Backoff.{ExponentialBackoff, next_delay}
use dbirth.Cdc.Replication.Backoff

-- `CheckpointStore`, for the slot of one client. `save` says whether it returned or raised; either
-- way the position in memory has moved.
pub record CheckpointStore : Type 1 where
  pub State : Type 0
  pub load : State → Option ℕ
  pub save : ℕ → State → Bool × State
  pub reset : Option ℕ → Option ℕ → Bool → State → Bool × State
  pub load-save : (lsn : ℕ) (s : State) → load (save lsn s).1 ≡ some (raise_to lsn (load s))

pub record Message (D : Type 0) : Type 0 where
  pub lsn : ℕ
  pub payload : D
  pub commit_timestamp : ℕ

pub record Client : Type 0 where
  pub checkpoint_interval : ℕ
  pub last_seen_lsn : Option ℕ
  pub last_persisted_lsn : Option ℕ
  pub last_error_delay : Option ℕ
  pub backoff : ExponentialBackoff

-- The constructor's state: nothing seen or persisted, and an interval of at least one.
unfoldable pub open_client : ℕ → ExponentialBackoff → Client
open_client interval backoff = record {
  checkpoint_interval = max 1 interval;
  last_seen_lsn = none;
  last_persisted_lsn = none;
  last_error_delay = none;
  backoff = backoff;
}

-- How a loop ends: it falls through, `process` returns from inside it, or something raises.
pub data Flow : Type 0 where
  through returned raised : Flow

module _ (store : CheckpointStore) {D C S : Type 0} (decode : Message D → Option (List C))
    (handler : C → S → Bool × S) where
  open store use {State, load, save}

  -- The client, its store, what the handler works on, and the counter `processed`.
  pub record World : Type 0 where
    pub client : Client
    pub positions : State
    pub sink : S
    pub processed : ℕ

  -- `_last_persisted_lsn is None or lsn > _last_persisted_lsn`
  abbrev pub is_ahead : ℕ → Option ℕ → Bool
  is_ahead lsn none = true
  is_ahead lsn (some persisted) = ltb persisted lsn

  abbrev pub record_save : ℕ → Bool → State → World → Bool × World
  record_save lsn false positions' w = (false, record w { positions = positions' })
  record_save lsn true positions' w = (
    true,
    record w { positions = positions'; client = record w.client { last_persisted_lsn = some lsn } },
  )

  -- `_persist_checkpoint`; false is a raise of the store
  unfoldable pub persist_checkpoint : ℕ → World → Bool × World
  persist_checkpoint lsn w =
      if is_ahead lsn w.client.last_persisted_lsn
      then (let (saved, positions') = save lsn w.positions in record_save lsn saved positions' w)
      else (true, w)

  abbrev pub see : ℕ → World → World
  see lsn w = record w { client = record w.client { last_seen_lsn = some lsn } }

  -- `max_messages and processed >= max_messages`
  abbrev pub is_full : Option ℕ → ℕ → Bool
  is_full none processed = false
  is_full (some most) processed = if most == 0 then false else leb most processed

  abbrev pub flow_of : Flow → Bool → Flow
  flow_of flow true = flow
  flow_of flow false = raised

  -- the loop over the changes of one message
  unfoldable pub handle_changes : Option ℕ → ℕ → List C → World → Flow × World
  handle_changes most lsn [] w = (through, w)
  handle_changes most lsn (change ∷ changes) w =
      let (returns, sink') = handler change w.sink in
      let w' : World = record w { sink = sink'; processed = w.processed + 1 } in
      let rest = handle_changes most lsn changes w' in
      elim returns [
        | false ↦ (raised, w')
        | true ↦ elim (is_full most w'.processed) [
          | false ↦ rest
          | true ↦
              let (saved, w'') = persist_checkpoint lsn (see lsn w') in
              (flow_of returned saved, w'')
        ]
      ]

  -- after the changes of a message
  unfoldable pub finish_message : ℕ → World → Flow × World
  finish_message lsn w =
      if w.processed % w.client.checkpoint_interval == 0
      then (let (saved, w') = persist_checkpoint lsn (see lsn w) in (flow_of through saved, w'))
      else (through, see lsn w)

  abbrev pub after_changes : ℕ → Flow × World → Flow × World
  after_changes lsn (through, w) = finish_message lsn w
  after_changes lsn (returned, w) = (returned, w)
  after_changes lsn (raised, w) = (raised, w)

  -- one round of the loop over the stream; none is a raise of the iterator
  unfoldable pub handle_message : Option ℕ → Option (Message D) → World → Flow × World
  handle_message most none w = (raised, w)
  handle_message most (some m) w = elim (decode m) [
    | none ↦ (raised, w)
    | some changes ↦ after_changes m.lsn (handle_changes most m.lsn changes w)
  ]

  abbrev pub pick_stream : Flow → Flow × World → Flow × World → Flow × World
  pick_stream through rest here = rest
  pick_stream returned rest here = here
  pick_stream raised rest here = here

  -- the loop over the stream
  unfoldable pub handle_stream : Option ℕ → List (Option (Message D)) → World → Flow × World
  handle_stream most [] w = (through, w)
  handle_stream most (m ∷ stream) w =
      let step = handle_message most m w in
      let rest = handle_stream most stream step.1 in pick_stream step.0 rest step

  -- `if self._last_seen_lsn is not None: persist`
  unfoldable pub finish_stream : World → Bool × World
  finish_stream w = elim w.client.last_seen_lsn [
    | none ↦ (true, w)
    | some lsn ↦ persist_checkpoint lsn w
  ]

  abbrev pub settle : World → World
  settle w = record w {
    client = record w.client { backoff = Backoff.reset w.client.backoff; last_error_delay = none };
  }

  -- the `except` clause; an exhausted backoff raises in its turn, and sets no delay
  unfoldable pub fail : (ℕ → ℕ) → World → World
  fail scale w =
      let (delay, backoff') = next_delay scale w.client.backoff in
      elim delay [
        | none ↦ w
        | some d ↦ record w {
          client = record w.client { backoff = backoff'; last_error_delay = some d };
        }
      ]

  abbrev pub conclude : (ℕ → ℕ) → Flow → World → Option ℕ × World
  conclude scale through w = (some w.processed, settle w)
  conclude scale returned w = (some w.processed, settle w)
  conclude scale raised w = (none, fail scale w)

  abbrev pub after_stream : Flow × World → Flow × World
  after_stream (through, w) = let (saved, w') = finish_stream w in (flow_of through saved, w')
  after_stream (returned, w) = (returned, w)
  after_stream (raised, w) = (raised, w)

  -- `process`, on what the stream yields from the stored position on; none is a raise
  unfoldable pub process :
      (ℕ → ℕ) → Option ℕ → (Option ℕ → List (Option (Message D))) → World → Option ℕ × World
  process scale most stream_factory w =
      let (flow, w') =
        after_stream
          (handle_stream most (stream_factory (load w.positions)) (record w { processed = 0 })) in
      conclude scale flow w'

  -- `reset_checkpoint`; false is a raise of the store
  unfoldable pub reset_checkpoint : Option ℕ → Option ℕ → Bool → World → Bool × World
  reset_checkpoint expected new force w =
      let (done, positions') = store.reset expected new force w.positions in
      elim done [
        | false ↦ (false, record w { positions = positions' })
        | true ↦ (
          true,
          record w {
            positions = positions';
            client = record w.client {
              last_seen_lsn = new;
              last_persisted_lsn = new;
              backoff = Backoff.reset w.client.backoff;
              last_error_delay = none;
            };
          },
        )
      ]
