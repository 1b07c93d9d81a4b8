-- ===== src/Cdc/Replication/Progress.antt =====
-- However `process` ends, the stored position moves forward only, and to no position beyond a bound.
use dbirth.Base.{ℕ, ◌≤◌, ◌≡◌, Bool, true, ltb→lt, Option, none, some, List, [], ◌∷◌, arith, All}
use native.Mathlib.Nat.{le_refl}
use dbirth.Cdc.Checkpoint.Saves.{raise_to}
use dbirth.Cdc.Replication.Client.{CheckpointStore, Message, World, is_ahead, process}
use dbirth.Cdc.Replication.Stored.{Seen, MessageAllowed, process-Ended}

-- A position is kept or moved forward.
abbrev pub Advances : Option ℕ → Option ℕ → Type 0
Advances none after = Unit
Advances (some before) none = ⊥
Advances (some before) (some after) = before ≤ after

Advances-refl : (o : Option ℕ) → Advances o o
Advances-refl none = tt
Advances-refl (some n) = le_refl n

Advances-raise : (o o' : Option ℕ) (lsn : ℕ) → Advances o o' → Advances o (some (raise_to lsn o'))
Advances-raise none o' lsn h = tt
Advances-raise (some n) none lsn h = absurd h
Advances-raise (some n) (some m) lsn h = omega arith

-- A position is at most a bound, if there is one.
abbrev pub IsWithin : ℕ → Option ℕ → Type 0
IsWithin bound none = Unit
IsWithin bound (some lsn) = lsn ≤ bound

abbrev pub LsnWithin : {D : Type 0} → ℕ → Option (Message D) → Type 0
LsnWithin bound none = Unit
LsnWithin bound (some m) = m.lsn ≤ bound

pub IsWithin-raise :
    (bound lsn : ℕ) (o : Option ℕ)
    → lsn ≤ bound
    → IsWithin bound o
    → IsWithin bound (some (raise_to lsn o))
IsWithin-raise bound lsn none a h = a
IsWithin-raise bound lsn (some m) a h = omega arith

All-allowed : {D : Type 0} (l : List (Option (Message D))) → All (MessageAllowed (λ _. Unit)) l
All-allowed [] = tt
All-allowed (none ∷ l) = (tt, All-allowed l)
All-allowed (some m ∷ l) = (tt, All-allowed l)

any-Seen : (o : Option ℕ) → Seen (λ _. Unit) o
any-Seen none = tt
any-Seen (some lsn) = tt

within_allowed :
    {D : Type 0} (bound : ℕ) (l : List (Option (Message D)))
    → All (LsnWithin bound) l
    → All (MessageAllowed (λ lsn. lsn ≤ bound)) l
within_allowed bound [] h = tt
within_allowed bound (none ∷ l) h = (tt, within_allowed bound l h.1)
within_allowed bound (some m ∷ l) h = (h.0, within_allowed bound l h.1)

pub within-Seen : (bound : ℕ) (o : Option ℕ) → IsWithin bound o → Seen (λ lsn. lsn ≤ bound) o
within-Seen bound none h = tt
within-Seen bound (some lsn) h = h

module _ (store : CheckpointStore) {D C S : Type 0} (decode : Message D → Option (List C))
    (handler : C → S → Bool × S) (scale : ℕ → ℕ) (most : Option ℕ)
    (stream_factory : Option ℕ → List (Option (Message D))) (w : World store decode handler) where
  open store use {load}

  Advances-ahead :
      (before o : Option ℕ) (lsn : ℕ)
      → is_ahead store decode handler lsn o ≡ true
      → Advances before o
      → Advances before (some lsn)
  Advances-ahead none o lsn e h = tt
  Advances-ahead (some n) none lsn e h = absurd h
  Advances-ahead (some n) (some m) lsn e h = omega (arith, h, ltb→lt m lsn e)

  -- However a run of `process` ends, by a return or by a raise of the stream, the decoder, the handler
  -- or the store, the stored position has not moved back, and neither has the one that the client
  -- remembers as the last it persisted.
  pub process-Advances :
      let w' = (process store decode handler scale most stream_factory w).1 in
      Advances (load w.positions) (load w'.positions)
      × Advances w.client.last_persisted_lsn w'.client.last_persisted_lsn
  process-Advances =
      let persisted = w.client.last_persisted_lsn in
      process-Ended store decode handler (Advances (load w.positions)) (λ _. Unit)
        (λ lsn o _ h. Advances-raise (load w.positions) o lsn h) (Advances persisted)
        (λ lsn o e h. Advances-ahead persisted o lsn e h) scale most stream_factory w
        (All-allowed (stream_factory (load w.positions)))
        (record {
          stored = Advances-refl (load w.positions);
          persisted = Advances-refl persisted;
          seen = any-Seen w.client.last_seen_lsn;
        })

  -- A run stores no position beyond those of the messages that came, the last one seen before it,
  -- and the one that was stored.
  pub process-IsWithin :
      (bound : ℕ)
      → All (LsnWithin bound) (stream_factory (load w.positions))
      → IsWithin bound (load w.positions)
      → IsWithin bound w.client.last_seen_lsn
      → IsWithin bound (load (process store decode handler scale most stream_factory w).1.positions)
  process-IsWithin bound messages stored seen =
      (process-Ended store decode handler (IsWithin bound) (λ lsn. lsn ≤ bound)
        (IsWithin-raise bound) (λ _. Unit) (λ lsn o e h. tt) scale most stream_factory w
        (within_allowed bound (stream_factory (load w.positions)) messages)
        (record {
          stored = stored;
          persisted = tt;
          seen = within-Seen bound w.client.last_seen_lsn seen;
        })).0
