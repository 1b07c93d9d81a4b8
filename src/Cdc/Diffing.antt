-- ===== src/Cdc/Diffing.antt =====
-- cdc/diffing.py: diff events merged by metric path. The values of a diff are not looked into: they
-- are of any type `V`.
pub mod Merge
pub mod Replay
pub mod Snapshots
pub mod Drain
mod Tests
use dbirth.Base.{
  ℕ, ◌+◌, String, Bool, true, false, Option, none, some, List, [], ◌∷◌, ◌++◌, map, if◌then◌else◌,
  leb,
}
use dbirth.Base.Dict.{Dict, get, put, remove, keys, values, contains, add, string_key}

pub record DiffEvent (V : Type 0) : Type 0 where
  pub event_id : String
  pub uns_path : String
  pub version : ℕ
  pub actor : String
  pub changes : Dict String V
  pub timestamp : String

pub record AggregatedDiff (V : Type 0) : Type 0 where
  pub uns_path : String
  pub events : List (DiffEvent V)
  pub merged_changes : Dict String (ℕ × V)

pub record Snapshot (V : Type 0) : Type 0 where
  pub uns_path : String
  pub versions : List ℕ
  pub latest_version : ℕ
  pub previous_version : Option ℕ
  pub latest_actor : String
  pub actors : List String
  pub timestamps : List String
  pub changes : Dict String V

pub record DiffAccumulator (V : Type 0) : Type 0 where
  pub entries : Dict String (AggregatedDiff V)
  pub seen_event_ids : List String

abbrev pub count_applied : Bool → ℕ → ℕ
count_applied applied n = if applied then n + 1 else n

module _ {V : Type 0} where
  -- one round of the loop in `append`
  unfoldable pub merge_change : ℕ → String → V → Dict String (ℕ × V) → Dict String (ℕ × V)
  merge_change version key value merged = elim (get key merged) [
    | none ↦ put key (version, value) merged
    | some (current, old) ↦ if leb current version then put key (version, value) merged else merged
  ]

  unfoldable pub merge_changes : ℕ → Dict String V → Dict String (ℕ × V) → Dict String (ℕ × V)
  merge_changes version [] merged = merged
  merge_changes version ((key, value) ∷ changes) merged =
      merge_changes version changes (merge_change version key value merged)

  unfoldable pub append : AggregatedDiff V → DiffEvent V → AggregatedDiff V
  append entry event = record entry {
    events = entry.events ++ event ∷ [];
    merged_changes = merge_changes event.version event.changes entry.merged_changes;
  }

  unfoldable pub insert_by_version : DiffEvent V → List (DiffEvent V) → List (DiffEvent V)
  insert_by_version e [] = e ∷ []
  insert_by_version e (x ∷ xs) =
      if leb e.version x.version then e ∷ x ∷ xs else x ∷ insert_by_version e xs

  -- `sorted(self.events, key=lambda ev: ev.version)`, which is stable
  unfoldable pub sorted : List (DiffEvent V) → List (DiffEvent V)
  unfolding insert_by_version
  sorted [] = []
  sorted (e ∷ es) = insert_by_version e (sorted es)

  -- `l[-1]`, after the first element
  abbrev pub last_of : DiffEvent V → List (DiffEvent V) → DiffEvent V
  last_of e [] = e
  last_of _ (x ∷ xs) = last_of x xs

  -- `l[-2].version if len(l) > 1 else None`
  abbrev pub previous_of : DiffEvent V → List (DiffEvent V) → Option ℕ
  previous_of e [] = none
  previous_of e (x ∷ []) = some e.version
  previous_of _ (x ∷ y ∷ ys) = previous_of x (y ∷ ys)

  abbrev pub strip_versions : Dict String (ℕ × V) → Dict String V
  strip_versions [] = []
  strip_versions ((key, (version, value)) ∷ d) = (key, value) ∷ strip_versions d

  -- none is the `IndexError` of `ordered_events[-1]` on no events
  abbrev pub snapshot_of : AggregatedDiff V → List (DiffEvent V) → Option (Snapshot V)
  snapshot_of entry [] = none
  snapshot_of entry (e ∷ es) = some (record {
    uns_path = entry.uns_path;
    versions = map (λ x. x.version) (e ∷ es);
    latest_version = (last_of e es).version;
    previous_version = previous_of e es;
    latest_actor = (last_of e es).actor;
    actors = map (λ x. x.actor) (e ∷ es);
    timestamps = map (λ x. x.timestamp) (e ∷ es);
    changes = strip_versions entry.merged_changes;
  })

  unfoldable pub to_snapshot : AggregatedDiff V → Option (Snapshot V)
  unfolding sorted
  to_snapshot entry = snapshot_of entry (sorted entry.events)

  -- the entry of a path, or a new one
  abbrev pub entry_for : String → Dict String (AggregatedDiff V) → AggregatedDiff V
  entry_for path entries = elim (get path entries) [
    | none ↦ record { uns_path = path; events = []; merged_changes = [] }
    | some entry ↦ entry
  ]

  unfoldable pub apply : DiffEvent V → DiffAccumulator V → Bool × DiffAccumulator V
  unfolding append
  apply event acc = if contains event.event_id acc.seen_event_ids then (false, acc) else (
    true,
    record {
      entries =
          put event.uns_path (append (entry_for event.uns_path acc.entries) event) acc.entries;
      seen_event_ids = add event.event_id acc.seen_event_ids;
    },
  )

  -- the loop of `extend`, with its counter
  unfoldable pub extend_from : ℕ → List (DiffEvent V) → DiffAccumulator V → ℕ × DiffAccumulator V
  unfolding apply
  extend_from n [] acc = (n, acc)
  extend_from n (event ∷ events) acc =
      let (applied, acc') = apply event acc in extend_from (count_applied applied n) events acc'

  unfoldable pub extend : List (DiffEvent V) → DiffAccumulator V → ℕ × DiffAccumulator V
  unfolding extend_from
  extend = extend_from 0

  -- `_entries.pop(path, None)` and the snapshot; the outer none is a raise
  unfoldable pub pop : String → DiffAccumulator V → Option (Option (Snapshot V)) × DiffAccumulator V
  unfolding to_snapshot
  pop path acc = elim (get path acc.entries) [
    | none ↦ (some none, acc)
    | some entry ↦
        let taken : Option (Option (Snapshot V)) = elim (to_snapshot entry) [
          | none ↦ none
          | some s ↦ some (some s)
        ] in
        (taken, record acc { entries = remove path acc.entries })
  ]

  abbrev pub collect : Option (Snapshot V) → List (Snapshot V) → List (Snapshot V)
  collect none out = out
  collect (some s) out = out ++ s ∷ []

  -- the loop of `drain`
  unfoldable pub drain_from :
      List String
      → List (Snapshot V)
      → DiffAccumulator V
      → Option (List (Snapshot V)) × DiffAccumulator V
  drain_from [] out acc = (some out, acc)
  drain_from (path ∷ paths) out acc =
      let (taken, acc') = pop path acc in
      elim taken [ none ↦ (none, acc') | some s ↦ drain_from paths (collect s out) acc' ]

  unfoldable pub drain : DiffAccumulator V → Option (List (Snapshot V)) × DiffAccumulator V
  unfolding drain_from
  drain acc = drain_from (keys acc.entries) [] acc

  unfoldable pub snapshots : Dict String (AggregatedDiff V) → Option (List (Snapshot V))
  snapshots [] = some []
  snapshots ((path, entry) ∷ d) =
      let rest = snapshots d in
      elim (to_snapshot entry) [
        | none ↦ none
        | some s ↦ elim rest [ none ↦ none | some l ↦ some (s ∷ l) ]
      ]

  -- `DiffAccumulator.snapshot`
  unfoldable pub snapshot : DiffAccumulator V → Option (List (Snapshot V))
  unfolding snapshots
  snapshot acc = snapshots acc.entries
