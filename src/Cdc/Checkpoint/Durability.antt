-- ===== src/Cdc/Checkpoint/Durability.antt =====
-- The file of `PersistentCheckpointStore` against faults, and its memory against the file.
use dbirth.Base.{
  ℕ, ◌<◌, leb, String, ◌≡◌, refl, ap, ◌⊎◌, inl, inr, Bool, true, false, Option, none, some,
  Option-cases, [], ◌∷◌, arith, ◌∙◌, sym,
}
use mathlib.Core.Path.{subst}
use dbirth.Base.Dict.{get, put, get-put, string_key}
use dbirth.Base.Result.{Result, ok, err}
use dbirth.Cdc.Checkpoint.InMemory
use dbirth.Cdc.Checkpoint.InMemory.{Positions, Refusal, Verdict, keep, proceed, refuse}
use dbirth.Cdc.Checkpoint.Persistent.{
  Json, Faults, absent, Disk, Store, Failure, os_error, ints, filtered, write_locked,
  load_from_disk, commit, save, reset, reset_guards, reset_positions,
}

-- How a run of `_write_locked` that began with the checkpoint file `old` may end.
abbrev pub Ends : {T : Type 0} → Faults → T → Option T → Result Failure (Unit {0}) × Disk T → Type 0
Ends faults text old (ok _, disk) =
    (disk.target ≡ some text) × (disk.temp ≡ absent) × (disk.fd_open ≡ false)
Ends faults text old (err _, disk) =
    ((disk.target ≡ old) ⊎ (disk.target ≡ some text))
    × (disk.fd_open ≡ false)
    × (faults.unlink ≡ false → disk.temp ≡ absent)

-- Whichever calls fail, the checkpoint file holds the old text or the new one, whole; a return
-- means the new one. No descriptor stays open, and no temporary file unless `unlink` fails too.
pub write_locked_atomic :
    {T : Type 0} (faults : Faults) (fsync : Bool) (text : T) (disk : Disk T)
    → disk.temp ≡ absent
    → disk.fd_open ≡ false
    → Ends faults text disk.target (write_locked faults fsync text disk)
unfolding write_locked
write_locked_atomic faults fsync text disk t f = ground arith

filtered-ints : (d : Positions) → filtered (ints d) ≡ d
unfolding filtered
filtered-ints [] = refl
filtered-ints (e ∷ d) = ap (λ l. e ∷ l) (filtered-ints d)

-- The position is greater than the one there is, if there is one.
abbrev pub IsAhead : ℕ → Option ℕ → Type 0
IsAhead lsn none = Unit
IsAhead lsn (some current) = current < lsn

module _ (json : Json) where
  open json use {Text, dumps, loads, is_empty}

  load_from_disk-dumps : (d : Positions) → load_from_disk json (some (dumps d)) ≡ json.reload d
  unfolding load_from_disk
  load_from_disk-dumps d =
      ground (arith, json.loads-dumps d, json.dumps_nonempty d, filtered-ints (json.reload d))

  -- A restart would find what the store has in memory.
  abbrev pub IsSynced : Store Text → Type 0
  IsSynced s = (slot : String) → get slot (load_from_disk json s.disk.target) ≡ get slot s.positions

  commit-IsSynced :
      (faults : Faults) (positions : Positions) (s : Store Text)
      → (commit json faults positions s).0 ≡ ok tt
      → IsSynced (commit json faults positions s).1
  unfolding commit
  commit-IsSynced faults positions s h slot =
      let written : (commit json faults positions s).1.disk.target ≡ some (dumps positions) =
        ground arith in
      ap (λ t. get slot (load_from_disk json t)) written
      ∙ ap (get slot) (load_from_disk-dumps positions)
      ∙ json.get-reload positions slot

  pub Verdict-cases :
      (v : Verdict) → (v ≡ keep) ⊎ ((why : Refusal) × (v ≡ refuse why)) ⊎ (v ≡ proceed)
  Verdict-cases keep = inl refl
  Verdict-cases (refuse why) = inr (inl (why, refl))
  Verdict-cases proceed = inr (inr refl)

  -- A call that leaves the store alone, or ends in a write that returned, keeps file and memory
  -- in step.
  step-IsSynced :
      (faults : Faults) (positions : Positions) (s : Store Text)
      (r : Result Failure (Unit {0}) × Store Text)
      → (r.1 ≡ s) ⊎ (r ≡ commit json faults positions s)
      → IsSynced s
      → r.0 ≡ ok tt
      → IsSynced r.1
  step-IsSynced faults positions s r (inl same) h e = subst IsSynced (sym same) h
  step-IsSynced faults positions s r (inr p) h e =
      subst (λ (q : Result Failure (Unit {0}) × Store Text). q.0 ≡ ok tt → IsSynced q.1) (sym p)
        (commit-IsSynced faults positions s) e

  save-cases :
      (faults : Faults) (slot : String) (lsn : ℕ) (s : Store Text)
      → ((save json faults slot lsn s).1 ≡ s)
        ⊎ (save json faults slot lsn s ≡ commit json faults (put slot lsn s.positions) s)
  unfolding save
  save-cases faults slot lsn s = ground arith

  reset-cases :
      (faults : Faults) (slot : String) (expected new : Option ℕ) (force : Bool) (s : Store Text)
      → ((reset json faults slot expected new force s).1 ≡ s)
        ⊎ ((positions : Positions) × (reset json faults slot expected new force s
              ≡ commit json faults positions s))
  unfolding reset
  reset-cases faults slot expected new force s =
      elim (Verdict-cases (reset_guards (get slot s.positions) new expected force)) [
        | inl e ↦ rw (e, reset) (inl refl)
        | inr (inl (why, e)) ↦ rw (e, reset) (inl refl)
        | inr (inr e) ↦
            elim (Option-cases (reset_positions slot (get slot s.positions) new s.positions)) [
              | inl early ↦ rw (e, early, reset) (inl refl)
              | inr (positions, moved) ↦ rw (e, moved, reset) (inr (positions, refl))
            ]
      ]

  -- If a restart would find what memory holds, and a save returns, then that is so after the save.
  pub save-IsSynced :
      (faults : Faults) (slot : String) (lsn : ℕ) (s : Store Text)
      → IsSynced s
      → (save json faults slot lsn s).0 ≡ ok tt
      → IsSynced (save json faults slot lsn s).1
  save-IsSynced faults slot lsn s =
      step-IsSynced faults (put slot lsn s.positions) s _ (save-cases faults slot lsn s)

  -- If a restart would find what memory holds, and a reset returns, then that is so after it.
  pub reset-IsSynced :
      (faults : Faults) (slot : String) (expected new : Option ℕ) (force : Bool) (s : Store Text)
      → IsSynced s
      → (reset json faults slot expected new force s).0 ≡ ok tt
      → IsSynced (reset json faults slot expected new force s).1
  reset-IsSynced faults slot expected new force s h e =
      elim (reset-cases faults slot expected new force s) [
        | inl same ↦ subst IsSynced (sym same) h
        | inr (positions, written) ↦ step-IsSynced faults positions s _ (inr written) h e
      ]

  pub positions-commit :
      (faults : Faults) (positions : Positions) (s : Store Text)
      → (commit json faults positions s).1.positions ≡ positions
  unfolding commit
  positions-commit faults positions s = refl

  -- Memory goes through the same positions as the in-memory store, also where the write fails.
  pub positions-save :
      (faults : Faults) (slot : String) (lsn : ℕ) (s : Store Text)
      → (save json faults slot lsn s).1.positions ≡ InMemory.save slot lsn s.positions
  unfolding save InMemory.save
  positions-save faults slot lsn s =
      ground (arith, positions-commit faults (put slot lsn s.positions) s)

  target-commit :
      (faults : Faults) (positions : Positions) (s : Store Text)
      → faults.replace ≡ true
      → (commit json faults positions s).1.disk.target ≡ s.disk.target
  unfolding commit
  target-commit faults positions s h = ground arith

  commit_fails :
      (faults : Faults) (positions : Positions) (s : Store Text)
      → faults.replace ≡ true
      → (commit json faults positions s).0 ≡ err os_error
  unfolding commit
  commit_fails faults positions s h = ground arith

  save_kept :
      (faults : Faults) (slot : String) (lsn : ℕ) (s : Store Text)
      → get slot s.positions ≡ some lsn
      → save json faults slot lsn s ≡ (ok tt, s)
  unfolding save
  save_kept faults slot lsn s found =
      let kept : leb lsn lsn ≡ true = ground arith in rw (found, kept, save) refl

  save_ahead :
      (faults : Faults) (slot : String) (lsn : ℕ) (s : Store Text)
      → IsAhead lsn (get slot s.positions)
      → save json faults slot lsn s ≡ commit json faults (put slot lsn s.positions) s
  unfolding save
  save_ahead faults slot lsn s ahead = elim (Option-cases (get slot s.positions)) [
    | inl new ↦ rw (new, save) refl
    | inr (current, found) ↦
        let more : current < lsn = subst (IsAhead lsn) found ahead in
        let not_kept : leb lsn current ≡ false = ground arith in rw (found, not_kept, save) refl
  ]

  -- A save of a position that is ahead of the one the slot has, if any, raises if `os.replace` fails.
  -- The file is left alone, but memory has moved on: the same save, called again, returns with no
  -- attempt to write, whatever the system would allow.
  pub retried_save :
      (faults again : Faults) (slot : String) (lsn : ℕ) (s : Store Text)
      → faults.replace ≡ true
      → IsAhead lsn (InMemory.load slot s.positions)
      → let s' = (save json faults slot lsn s).1 in
        ((save json faults slot lsn s).0 ≡ err os_error)
        × (save json again slot lsn s' ≡ (ok tt, s'))
        × (s'.disk.target ≡ s.disk.target)
        × (InMemory.load slot s'.positions ≡ some lsn)
  unfolding InMemory.load
  retried_save faults again slot lsn s fault ahead =
      let moved = put slot lsn s.positions in
      let writes = save_ahead faults slot lsn s ahead in
      let found =
        ap (λ r. get slot r.1.positions) writes
        ∙ ap (get slot) (positions-commit faults moved s)
        ∙ (get-put slot slot lsn s.positions ∙ ground arith) in
      (
        ap (λ r. r.0) writes ∙ commit_fails faults moved s fault,
        save_kept again slot lsn (save json faults slot lsn s).1 found,
        ap (λ r. r.1.disk.target) writes ∙ target-commit faults moved s fault,
        found,
      )
