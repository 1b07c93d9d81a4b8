-- ===== src/Cdc/Replication/Tests.antt =====
-- Runs of the client over both stores, and the theorems at concrete inputs.
use dbirth.Base.{
  ◌≤◌, ◌+◌, ℕ, ◌≡◌, refl, Bool, false, Option, none, some, List, [], ◌∷◌, ◌++◌, arith, inl, inr,
  ltb,
}
use dbirth.Base.Dict.{get, put, String-discrete, string_key}
use dbirth.Cdc.Checkpoint.InMemory
use dbirth.Cdc.Replication.Backoff.{
  ExponentialBackoff, IsWithinLimit, raw_delay, next_delay, next_delay_bounds,
}
use dbirth.Cdc.Replication.Client.{
  Message, World, open_client, process, persist_checkpoint, handle_changes, finish_message,
  handle_message, handle_stream, finish_stream, fail,
}
use dbirth.Cdc.Replication.Stores.{in_memory}
use dbirth.Cdc.Replication.Progress.{Advances, IsWithin, process-Advances, process-IsWithin}
use dbirth.Cdc.Replication.Poison.{process_poison}
use dbirth.Cdc.Replication.Cut.{process_cut}

-- A message carries its changes; 13 cannot be decoded, and the handler refuses 0.
abbrev decode : Message (List ℕ) → Option (List ℕ)
decode m = elim m.payload [ [] ↦ none | c ∷ cs ↦ some (c ∷ cs) ]

abbrev handler : ℕ → List ℕ → Bool × List ℕ
handler c log = (ltb 0 c, log ++ c ∷ [])

abbrev at : ℕ → List ℕ → Option (Message (List ℕ))
at lsn changes = some (record { lsn = lsn; payload = changes; commit_timestamp = 0 })

abbrev backoff : ExponentialBackoff
backoff = record {
  base_interval = 5;
  multiplier = 2;
  max_interval = 300;
  max_attempts = none;
  jitter = false;
  attempt = 0;
}

abbrev start : World (in_memory "cdc") decode handler
start = record {
  client = record {
    checkpoint_interval = 50;
    last_seen_lsn = none;
    last_persisted_lsn = none;
    last_error_delay = none;
    backoff = backoff;
  };
  positions = ("cdc", 7) ∷ [];
  sink = [];
  processed = 0;
}

opened : open_client 50 backoff ≡ start.client
unfolding open_client
opened = refl

abbrev stream : List (Option (Message (List ℕ)))
stream = at 10 (1 ∷ 2 ∷ []) ∷ at 20 (3 ∷ 0 ∷ 4 ∷ []) ∷ at 30 (5 ∷ []) ∷ []

-- The handler refuses a change of the second message: the position is not saved.
refused :
    let (result, w') = process (in_memory "cdc") decode handler (λ x. x) none (λ _. stream) start in
    (result ≡ none)
    × (w'.sink ≡ 1 ∷ 2 ∷ 3 ∷ 0 ∷ [])
    × (w'.positions ≡ ("cdc", 7) ∷ [])
    × (w'.client.last_error_delay ≡ some 5)
unfolding process persist_checkpoint handle_changes finish_message handle_message handle_stream
    finish_stream fail next_delay InMemory.save get put String-discrete
refused = (refl, refl, refl, refl)

process-Advances_example :
    let w' = (process (in_memory "cdc") decode handler (λ x. x) (some 2) (λ _. stream) start).1 in
    Advances (InMemory.load "cdc" start.positions) (InMemory.load "cdc" w'.positions)
    × Advances start.client.last_persisted_lsn w'.client.last_persisted_lsn
process-Advances_example =
    process-Advances (in_memory "cdc") decode handler (λ x. x) (some 2) (λ _. stream) start

process-IsWithin_example : IsWithin 30 (
    InMemory.load "cdc"
      (process (in_memory "cdc") decode handler (λ x. x) none (λ _. stream) start).1.positions)
unfolding InMemory.load get String-discrete
process-IsWithin_example =
    process-IsWithin (in_memory "cdc") decode handler (λ x. x) none (λ _. stream) start 30
      (omega arith) (omega arith) tt

process_poison_example :
    let (result, w') = process (in_memory "cdc") decode handler (λ x. x) none (λ _. stream) start in
    (result ≡ none) × IsWithin 10 (InMemory.load "cdc" w'.positions)
unfolding InMemory.load get String-discrete
process_poison_example =
    process_poison (in_memory "cdc") decode handler 10 (λ x. x) (at 10 (1 ∷ 2 ∷ []) ∷ [])
      (at 20 (3 ∷ 0 ∷ 4 ∷ [])) (at 30 (5 ∷ []) ∷ []) start (omega arith)
      (inr (3 ∷ 0 ∷ 4 ∷ [], refl, inr (inl (λ s. refl)))) (omega arith) tt

process_cut_example :
    let (result, w') =
      process
        (in_memory "cdc")
        decode
        handler
        (λ x. x)
        (some 1)
        (λ _. at 40 (3 ∷ 4 ∷ []) ∷ [])
        start in
    (result ≡ some 1) × (w'.sink ≡ 3 ∷ []) × (InMemory.load "cdc" w'.positions ≡ some 40)
unfolding InMemory.load get String-discrete
process_cut_example =
    process_cut (in_memory "cdc") decode handler
      (record { lsn = 40; payload = 3 ∷ 4 ∷ []; commit_timestamp = 0 }) [] 3 [] (4 ∷ []) start refl
      (refl, tt) refl refl (λ x. x)

next_delay_bounds_run :
    let (delay, b') = next_delay (λ x. x) backoff in
    IsWithinLimit b'
    × ((d : ℕ)
        → delay ≡ some d
        → (d ≤ raw_delay backoff) × (d ≤ backoff.max_interval) × (b'.attempt ≡ backoff.attempt + 1))
    × (delay ≡ none → (backoff.max_attempts ≡ some backoff.attempt) × (b' ≡ backoff))
next_delay_bounds_run = next_delay_bounds (λ x. x) backoff (λ x. omega arith) tt
