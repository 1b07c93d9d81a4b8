-- ===== src/Cdc/Checkpoint/InMemory.antt =====
-- `InMemoryCheckpointStore`. Every method holds the lock from its first line to its last, so a
-- method is one step. Log sequence numbers are unsigned.
use dbirth.Base.{ℕ, String, Bool, true, false, Option, none, some, if◌then◌else◌, ltb, ◌==◌}
use dbirth.Base.Dict.{Dict, get, put, remove, string_key}
use dbirth.Base.Result.{Result, ok, err}

abbrev pub Positions : Type 0
Positions = Dict String ℕ

-- The three `ValueError`s of `reset`.
pub data Refusal : Type 0 where
  missing unexpected exceeds : Refusal

-- What the guards of `reset` decide: an early return, a refusal, or to go on to the write.
pub data Verdict : Type 0 where
  keep proceed : Verdict
  refuse : Refusal → Verdict

unfoldable pub load : String → Positions → Option ℕ
load slot positions = get slot positions

unfoldable pub save : String → ℕ → Positions → Positions
save slot lsn positions = elim (get slot positions) [
  | none ↦ put slot lsn positions
  | some current ↦ if ltb current lsn then put slot lsn positions else positions
]

-- `new_lsn is not None and new_lsn > current`
abbrev pub within_current : ℕ → Option ℕ → Verdict
within_current current none = proceed
within_current current (some lsn) = if ltb current lsn then refuse exceeds else proceed

-- The guards, on the current position, `new_lsn`, `expected_lsn` and `force`.
unfoldable pub reset_verdict : Option ℕ → Option ℕ → Option ℕ → Bool → Verdict
reset_verdict none none none force = keep
reset_verdict none none (some _) true = keep
reset_verdict none none (some _) false = refuse missing
reset_verdict none (some _) none force = proceed
reset_verdict none (some _) (some _) true = proceed
reset_verdict none (some _) (some _) false = refuse missing
reset_verdict (some _) new expected true = proceed
reset_verdict (some _) new none false = refuse unexpected
reset_verdict (some current) new (some lsn) false =
    if lsn == current then within_current current new else refuse unexpected

-- `pop` or assignment
unfoldable pub overwrite : String → Option ℕ → Positions → Positions
overwrite slot none positions = remove slot positions
overwrite slot (some lsn) positions = put slot lsn positions

abbrev pub apply_verdict : Verdict → Positions → Positions → Result Refusal Positions
apply_verdict keep positions written = ok positions
apply_verdict proceed positions written = ok written
apply_verdict (refuse r) positions written = err r

unfoldable pub reset : String → Option ℕ → Option ℕ → Bool → Positions → Result Refusal Positions
unfolding reset_verdict overwrite
reset slot expected new force positions =
    apply_verdict (reset_verdict (get slot positions) new expected force) positions
      (overwrite slot new positions)
