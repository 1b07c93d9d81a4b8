-- ===== src/Cdc/Diffing/Tests.antt =====
-- Runs of the accumulator, and the theorems at concrete inputs.
use dbirth.Base.{ℕ, ◌+◌, ◌≡◌, refl, none, some, [], ◌∷◌, length}
use dbirth.Base.Dict.{get, put, contains, add, String-discrete, string_key}
use dbirth.Cdc.Diffing.{
  DiffEvent, AggregatedDiff, Snapshot, DiffAccumulator, merge_change, merge_changes, apply, extend,
  pop, drain, snapshot,
}
use dbirth.Cdc.Diffing.Merge.{IsMerged, IsValid, apply-IsValid}
use dbirth.Cdc.Diffing.Replay.{extend_once}
use dbirth.Cdc.Diffing.Snapshots.{Reports, pop-IsValid, pop_present}
use dbirth.Cdc.Diffing.Drain.{drain-eq-snapshot}

abbrev empty : DiffAccumulator ℕ
empty = record { entries = []; seen_event_ids = [] }

abbrev newer : DiffEvent ℕ
newer = record {
  event_id = "7:5";
  uns_path = "a/b";
  version = 5;
  actor = "ops";
  changes = ("unit", 50) ∷ [];
  timestamp = "t5";
}

abbrev older : DiffEvent ℕ
older = record {
  event_id = "7:3";
  uns_path = "a/b";
  version = 3;
  actor = "bot";
  changes = ("unit", 30) ∷ ("low", 1) ∷ [];
  timestamp = "t3";
}

abbrev entry : AggregatedDiff ℕ
entry = record {
  uns_path = "a/b";
  events = newer ∷ older ∷ [];
  merged_changes = ("unit", (5, 50)) ∷ ("low", (3, 1)) ∷ [];
}

abbrev two : DiffAccumulator ℕ
two = record { entries = ("a/b", entry) ∷ []; seen_event_ids = "7:5" ∷ "7:3" ∷ [] }

-- The late event does not take the unit back.
extended : extend (newer ∷ older ∷ newer ∷ []) empty ≡ (2, two)
unfolding extend merge_changes merge_change get put contains add String-discrete
extended = refl

popped :
    (pop "a/b" two).0
    ≡ some (
        some (record {
          uns_path = "a/b";
          versions = 3 ∷ 5 ∷ [];
          latest_version = 5;
          previous_version = some 3;
          latest_actor = "ops";
          actors = "bot" ∷ "ops" ∷ [];
          timestamps = "t3" ∷ "t5" ∷ [];
          changes = ("unit", 50) ∷ ("low", 1) ∷ [];
        }))
unfolding pop get String-discrete
popped = refl

empty-IsValid : IsValid empty
empty-IsValid = record { distinct = tt; merged = tt }

one-IsValid : IsValid (apply newer empty).1
unfolding contains
one-IsValid = apply-IsValid newer empty (refl, tt) empty-IsValid

apply-IsValid_example : IsValid (apply older (apply newer empty).1).1
unfolding contains String-discrete
apply-IsValid_example = apply-IsValid older (apply newer empty).1 (refl, (refl, tt)) one-IsValid

two-IsValid : IsValid two
unfolding apply merge_changes merge_change get put contains add String-discrete
two-IsValid = apply-IsValid_example

extend_once_run :
    let (applied, acc') = extend (newer ∷ older ∷ newer ∷ []) empty in
    (length acc'.seen_event_ids ≡ applied + 0)
    × (extend (newer ∷ older ∷ newer ∷ []) acc' ≡ (0, acc'))
extend_once_run = extend_once (newer ∷ older ∷ newer ∷ []) empty

pop-IsValid_run : IsValid (pop "a/b" two).1
pop-IsValid_run = pop-IsValid "a/b" two two-IsValid

pop_present_example :
    (s : Snapshot ℕ) × ((pop "a/b" two).0 ≡ some (some s))
    × Reports entry s
    × IsMerged "a/b" entry
    × (get "a/b" (pop "a/b" two).1.entries ≡ none)
unfolding get String-discrete
pop_present_example = pop_present "a/b" two entry two-IsValid refl

drain-eq-snapshot_run : drain two ≡ (snapshot two, record two { entries = [] })
drain-eq-snapshot_run = drain-eq-snapshot two two-IsValid
