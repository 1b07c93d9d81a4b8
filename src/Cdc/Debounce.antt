-- ===== src/Cdc/Debounce.antt =====
-- cdc/debounce.py: metric diffs held back until their path has been quiet for the window. Times are
-- in ticks of a clock; `V` and `X` are the values of diffs and of extras, which are not looked into.
pub mod Due
pub mod Sequence
pub mod Cap
pub mod Invariant
pub mod Flush
mod Tests
use dbirth.Base.{
  ℕ, zero, suc, ◌+◌, String, true, false, Option, none, some, List, [], ◌∷◌, ◌++◌, length,
  if◌then◌else◌, leb, ltb, ◌==◌, ite,
}
use dbirth.Base.Dict.{Dict, get, put, remove, values, add, string_key, String-discrete}
use dbirth.Base.Result.{Result, ok, err}

pub record DebounceMetrics : Type 0 where
  pub counters : Dict String ℕ
  pub gauges : Dict String ℕ

abbrev pub or_zero : Option ℕ → ℕ
or_zero none = 0
or_zero (some n) = n

unfoldable pub inc : String → ℕ → DebounceMetrics → DebounceMetrics
inc name value m = record m {
  counters = put name (or_zero (get name m.counters) + value) m.counters;
}

unfoldable pub set_gauge : String → ℕ → DebounceMetrics → DebounceMetrics
set_gauge name value m = record m { gauges = put name value m.gauges }

-- `d.update(e)`, and the loop that assigns each item of `e`
unfoldable pub update : {V : Type 0} → Dict String V → Dict String V → Dict String V
update [] d = d
update ((key, value) ∷ e) d = update e (put key value d)

pub record DebounceEntry (V X : Type 0) : Type 0 where
  pub metric_key : String
  pub first_seen : ℕ
  pub last_update : ℕ
  pub payload : Dict String V
  pub version : Option ℕ
  pub actor : Option String
  pub event_ids : List String
  pub extras : Dict String X

-- The keyword arguments of `add`, with the diff.
pub record Update (V X : Type 0) : Type 0 where
  pub diff : Dict String V
  pub version : Option ℕ
  pub actor : Option String
  pub event_id : Option String
  pub timestamp : Option ℕ
  pub extras : Dict String X

pub record DebounceBuffer (V X : Type 0) : Type 0 where
  pub window_seconds : ℕ
  pub max_entries : ℕ
  pub metrics : DebounceMetrics
  pub entries : Dict String (DebounceEntry V X)
  pub sequence : List String

-- One payload of `flush_due`.
pub record Emission (V X : Type 0) : Type 0 where
  pub metric : String
  pub diff : Dict String V
  pub version : Option ℕ
  pub actor : Option String
  pub first_seen : ℕ
  pub last_update : ℕ
  pub event_ids : List String
  pub extras : Dict String X

-- The two `ValueError`s of the constructor.
pub data Refusal : Type 0 where
  bad_window bad_capacity : Refusal

-- The given timestamp, or the reading of the clock.
abbrev pub now_of : Option ℕ → ℕ → ℕ
now_of none clock = clock
now_of (some t) clock = t

-- The version that stays: a new one that is not older, or the old one.
unfoldable pub merge_version : Option ℕ → Option ℕ → Option ℕ
merge_version none old = old
merge_version (some v) none = some v
merge_version (some v) (some w) = if leb w v then some v else some w

-- `if actor:` is false of `None` and of the empty string
unfoldable pub merge_actor : Option String → Option String → Option String
merge_actor none old = old
merge_actor (some a) old = ite (String-discrete a "") old (some a)

unfoldable pub merge_event_id : Option String → List String → List String
merge_event_id none ids = ids
merge_event_id (some e) ids = ite (String-discrete e "") ids (add e ids)

-- `list.remove(x)`; none is the `ValueError`
unfoldable pub remove_first : String → List String → Option (List String)
remove_first x [] = none
remove_first x (y ∷ ys) =
    let rest = remove_first x ys in
    ite (String-discrete y x) (some ys) (elim rest [ none ↦ none | some zs ↦ some (y ∷ zs) ])

module _ {V X : Type 0} where
  -- the constructor; without `metrics` they start empty
  unfoldable pub open_buffer : ℕ → ℕ → Result Refusal (DebounceBuffer V X)
  open_buffer window cap =
      if window == 0
      then err bad_window
      else if cap == 0
      then err bad_capacity
      else ok (record {
        window_seconds = window;
        max_entries = cap;
        metrics = record { counters = []; gauges = [] };
        entries = [];
        sequence = [];
      })

  -- `DebounceEntry.merge`, always called with a timestamp
  unfoldable pub merge : Update V X → ℕ → DebounceEntry V X → DebounceEntry V X
  unfolding merge_version merge_actor merge_event_id
  merge u timestamp e = record e {
    payload = update u.diff e.payload;
    version = merge_version u.version e.version;
    actor = merge_actor u.actor e.actor;
    event_ids = merge_event_id u.event_id e.event_ids;
    last_update = timestamp;
    extras = update u.extras e.extras;
  }

  abbrev pub fresh : String → ℕ → DebounceEntry V X
  fresh key now = record {
    metric_key = key;
    first_seen = now;
    last_update = now;
    payload = [];
    version = none;
    actor = none;
    event_ids = [];
    extras = [];
  }

  -- `min(values, key=last_update)`: the first of the least
  unfoldable pub oldest_from : DebounceEntry V X → List (DebounceEntry V X) → DebounceEntry V X
  oldest_from e [] = e
  oldest_from e (x ∷ xs) = oldest_from (if ltb x.last_update e.last_update then x else e) xs

  -- one round of the loop of `_enforce_cap`; none is a raise
  unfoldable pub drop_oldest : DebounceBuffer V X → Option (DebounceBuffer V X)
  unfolding oldest_from
  drop_oldest b = elim (values b.entries) [
    | [] ↦ none
    | e ∷ es ↦
        let key = (oldest_from e es).metric_key in
        elim (get key b.entries) [
          | none ↦ none
          | some dropped ↦ elim (remove_first key b.sequence) [
            | none ↦ none
            | some rest ↦ some (record b {
              entries = remove key b.entries;
              sequence = rest;
              metrics = inc "dropped" 1 b.metrics;
            })
          ]
        ]
  ]

  -- the loop, on fuel; none is a raise, or fuel that ran out
  unfoldable pub enforce_cap : ℕ → DebounceBuffer V X → Option (DebounceBuffer V X)
  enforce_cap zero b = if leb (length b.entries) b.max_entries then some b else none
  enforce_cap (suc fuel) b = elim (ltb b.max_entries (length b.entries)) [
    | false ↦ some b
    | true ↦ elim (drop_oldest b) [ none ↦ none | some b' ↦ enforce_cap fuel b' ]
  ]

  -- `add` up to `_enforce_cap`: the entry is found or made, and merged in place
  unfoldable pub merge_into : String → Update V X → ℕ → DebounceBuffer V X → DebounceBuffer V X
  unfolding merge
  merge_into key u now b = elim (get key b.entries) [
    | none ↦ record b {
      entries = put key (merge u now (fresh key now)) b.entries;
      sequence = b.sequence ++ key ∷ [];
    }
    | some e ↦ record b { entries = put key (merge u now e) b.entries }
  ]

  abbrev pub report_depth : DebounceBuffer V X → DebounceBuffer V X
  report_depth b = record b { metrics = set_gauge "buffer_depth" (length b.entries) b.metrics }

  -- `DebounceBuffer.add`, with the reading of the clock; the entries are fuel enough for the loop
  unfoldable pub add_update :
      String → Update V X → ℕ → DebounceBuffer V X → Option (DebounceBuffer V X)
  unfolding merge_into enforce_cap drop_oldest
  add_update key u clock b =
      let merged = merge_into key u (now_of u.timestamp clock) b in
      elim (enforce_cap (length merged.entries) merged) [
        | none ↦ none
        | some b' ↦ some (report_depth b')
      ]
