-- ===== src/Cdc/Replication/Stores.antt =====
-- The two checkpoint stores as implementations of the interface that the client works with.
use dbirth.Base.{ℕ, String, ◌≡◌, Bool, true, false, Option, some, List, [], ◌∷◌, arith, ap, ◌∙◌}
use dbirth.Base.Result.{Result, ok, err}
use dbirth.Base.Dict.{get}
use dbirth.Cdc.Checkpoint.InMemory
use dbirth.Cdc.Checkpoint.InMemory.{Positions, Refusal}
use dbirth.Cdc.Checkpoint.Persistent
use dbirth.Cdc.Checkpoint.Persistent.{Json, Faults, Failure, Store}
use dbirth.Cdc.Checkpoint.Saves.{raise_to, load-save}
use dbirth.Cdc.Checkpoint.Durability.{positions-save}
use dbirth.Cdc.Replication.Client.{CheckpointStore}

pub load-save_self :
    (slot : String) (lsn : ℕ) (s : Positions)
    → InMemory.load slot (InMemory.save slot lsn s) ≡ some (raise_to lsn (InMemory.load slot s))
load-save_self slot lsn s = ground (arith, load-save slot slot lsn s)

abbrev pub reset_outcome : Result Refusal Positions → Positions → Bool × Positions
reset_outcome (ok after) before = (true, after)
reset_outcome (err r) before = (false, before)

-- `InMemoryCheckpointStore`, seen by the client of one slot
abbrev pub in_memory : String → CheckpointStore
in_memory slot = record {
  State = Positions;
  load = InMemory.load slot;
  save = λ lsn s. (true, InMemory.save slot lsn s);
  reset = λ expected new force s. reset_outcome (InMemory.reset slot expected new force s) s;
  load-save = load-save_self slot;
}

abbrev pub returns : Result Failure (Unit {0}) → Bool
returns (ok _) = true
returns (err _) = false

abbrev pub healthy : Faults
healthy = record {
  mkstemp = false;
  fdopen = false;
  write = false;
  replace = false;
  dir_open = false;
  dir_sync = false;
  unlink = false;
}

-- The faults of the next write, and those of the later ones.
abbrev pub next_faults : List Faults → Faults
next_faults [] = healthy
next_faults (f ∷ fs) = f

abbrev pub later_faults : List Faults → List Faults
later_faults [] = []
later_faults (f ∷ fs) = fs

module _ (json : Json) (slot : String) where
  open json use {Text}

  abbrev pub StoreState : Type 0
  StoreState = List Faults × Store Text

  abbrev pub save_state : ℕ → StoreState → Bool × StoreState
  save_state lsn (plan, s) =
      let (r, s') = Persistent.save json (next_faults plan) slot lsn s in
      (returns r, (later_faults plan, s'))

  abbrev pub reset_state : Option ℕ → Option ℕ → Bool → StoreState → Bool × StoreState
  reset_state expected new force (plan, s) =
      let (r, s') = Persistent.reset json (next_faults plan) slot expected new force s in
      (returns r, (later_faults plan, s'))

  pub load-save_state :
      (lsn : ℕ) (s : StoreState)
      → Persistent.load json slot (save_state lsn s).1.1
        ≡ some (raise_to lsn (Persistent.load json slot s.1))
  unfolding Persistent.load InMemory.load get
  load-save_state lsn (plan, s) =
      ap (InMemory.load slot) (positions-save json (next_faults plan) slot lsn s)
      ∙ load-save_self slot lsn s.positions

  -- `PersistentCheckpointStore`, with the faults of its writes to come
  abbrev pub persistent : CheckpointStore
  persistent = record {
    State = StoreState;
    load = λ s. Persistent.load json slot s.1;
    save = save_state;
    reset = reset_state;
    load-save = load-save_state;
  }
