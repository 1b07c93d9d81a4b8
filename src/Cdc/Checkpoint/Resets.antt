-- ===== src/Cdc/Checkpoint/Resets.antt =====
-- The guards of `reset`, in both stores.
use dbirth.Base.{
  ℕ, ◌≤◌, String, ◌≡◌, ◌≢◌, refl, ◌∙◌, inl, inr, Bool, true, false, Option, none, some, arith,
}
use dbirth.Base.Dict.{get, get-put, get-remove, string_key}
use dbirth.Base.Result.{Result, ok, err}
use dbirth.Cdc.Checkpoint.InMemory.{
  Positions, Refusal, proceed, load, overwrite, reset_verdict, reset,
}
use dbirth.Cdc.Checkpoint.Persistent
use dbirth.Cdc.Checkpoint.Persistent.{
  Json, Faults, Store, Failure, refused, reset_guards, reset_positions,
}
use dbirth.Cdc.Checkpoint.Durability.{positions-commit, Verdict-cases}

-- A new position that is no greater than the one it replaces.
abbrev pub IsWithin : Option ℕ → ℕ → Type 0
IsWithin none current = Unit
IsWithin (some lsn) current = lsn ≤ current

load-overwrite :
    (slot : String) (new : Option ℕ) (positions : Positions)
    → load slot (overwrite slot new positions) ≡ new
unfolding load overwrite
load-overwrite slot none positions = ground (arith, get-remove slot slot positions)
load-overwrite slot (some lsn) positions = ground (arith, get-put slot slot lsn positions)

load-overwrite_ne :
    (slot j : String) (new : Option ℕ) (positions : Positions)
    → slot ≢ j
    → load j (overwrite slot new positions) ≡ load j positions
unfolding load overwrite
load-overwrite_ne slot j none positions h = ground (arith, get-remove slot j positions)
load-overwrite_ne slot j (some lsn) positions h = ground (arith, get-put slot j lsn positions)

-- An unforced reset of a slot that has a position goes through only if the caller names that
-- position and the new one is not beyond it; then the slot holds exactly the new one.
pub reset_unforced :
    (slot : String) (expected new : Option ℕ) (current : ℕ) (positions after : Positions)
    → load slot positions ≡ some current
    → reset slot expected new false positions ≡ ok after
    → (expected ≡ some current) × IsWithin new current × (load slot after ≡ new)
unfolding reset load
reset_unforced slot none new current positions after h e = ground arith
reset_unforced slot (some x) none current positions after h e =
    ground (arith, load-overwrite slot none positions)
reset_unforced slot (some x) (some lsn) current positions after h e =
    ground (arith, load-overwrite slot (some lsn) positions)

-- A reset, forced or not, changes no other slot.
pub reset_others :
    (slot j : String) (expected new : Option ℕ) (force : Bool) (positions after : Positions)
    → slot ≢ j
    → reset slot expected new force positions ≡ ok after
    → load j after ≡ load j positions
unfolding reset
reset_others slot j expected new force positions after h e =
    ground (arith, load-overwrite_ne slot j new positions)

abbrev pub positions_of : Result Refusal Positions → Positions → Positions
positions_of (ok after) before = after
positions_of (err r) before = before

guards_agree :
    (current new expected : Option ℕ) (force : Bool)
    → reset_guards current new expected force ≡ reset_verdict current new expected force
unfolding reset_guards reset_verdict
guards_agree none none none force = ground arith
guards_agree none none (some x) force = ground arith
guards_agree none (some lsn) none force = ground arith
guards_agree none (some lsn) (some x) force = ground arith
guards_agree (some current) new expected true = refl
guards_agree (some current) none none false = refl
guards_agree (some current) (some lsn) none false = refl
guards_agree (some current) none (some x) false = ground arith
guards_agree (some current) (some lsn) (some x) false = ground arith

positions_agree :
    (slot : String) (current new expected : Option ℕ) (force : Bool) (positions : Positions)
    → reset_verdict current new expected force ≡ proceed
    → reset_positions slot current new positions ≡ some (overwrite slot new positions)
unfolding reset_positions overwrite reset_verdict
positions_agree slot none none none true positions e = absurd (cc (e))
positions_agree slot none none none false positions e = absurd (cc (e))
positions_agree slot none none (some x) true positions e = absurd (cc (e))
positions_agree slot none none (some x) false positions e = absurd (cc (e))
positions_agree slot (some current) none expected force positions e = refl
positions_agree slot none (some lsn) expected force positions e = refl
positions_agree slot (some current) (some lsn) expected force positions e = refl

module _ (json : Json) where
  open json use {Text}

  -- The persistent store moves its positions as the in-memory one does, and refuses when it does,
  -- for the same reason, whatever the file system does.
  pub reset_agrees :
      (faults : Faults) (slot : String) (expected new : Option ℕ) (force : Bool) (s : Store Text)
      → let memory = reset slot expected new force s.positions in
        let (r, s') = Persistent.reset json faults slot expected new force s in
        (s'.positions ≡ positions_of memory s.positions)
        × ((why : Refusal) → memory ≡ err why → r ≡ err (refused why))
  unfolding Persistent.reset reset
  reset_agrees faults slot expected new force s =
      let current = get slot s.positions in
      let same = guards_agree current new expected force in
      elim (Verdict-cases json (reset_verdict current new expected force)) [
        | inl e ↦
            let g = same ∙ e in rw (e, g, reset, Persistent.reset) (refl, λ why q. absurd (cc (q)))
        | inr (inl (why, e)) ↦
            let g = same ∙ e in rw (e, g, reset, Persistent.reset) (refl, λ w q. ground (arith, q))
        | inr (inr e) ↦
            let g = same ∙ e in
            let moved = positions_agree slot current new expected force s.positions e in
            let pos = positions-commit json faults (overwrite slot new s.positions) s in
            rw (e, g, moved, reset, Persistent.reset) (pos, λ why q. absurd (cc (q)))
      ]
