-- ===== src/Cdc/Debounce/Due.antt =====
-- `flush_due`: the entries that have been quiet for the window, in the order of the sequence.
use dbirth.Base.{
  ℕ, suc, ◌+◌, String, Bool, Option, none, some, List, [], ◌∷◌, length, if◌then◌else◌, leb, ite,
}
use dbirth.Base.Dict.{Dict, get, remove, string_key, String-discrete}
use dbirth.Base.Text.{sorted}
use dbirth.Cdc.Debounce.{inc, set_gauge, DebounceEntry, DebounceBuffer, Emission, remove_first}

-- `list.index(x)`, with the position of the list's head; none is the `ValueError`
unfoldable pub index_from : ℕ → String → List String → Option ℕ
index_from i x [] = none
index_from i x (y ∷ ys) = ite (String-discrete y x) (some i) (index_from (suc i) x ys)

-- the keys of `list.sort(key=sequence.index)`, computed before the sort
unfoldable pub decorate : List String → List String → Option (List (ℕ × String))
unfolding index_from
decorate sequence [] = some []
decorate sequence (k ∷ ks) =
    let rest = decorate sequence ks in
    elim (index_from 0 k sequence) [
      | none ↦ none
      | some i ↦ elim rest [ none ↦ none | some l ↦ some ((i, k) ∷ l) ]
    ]

unfoldable pub insert_decorated : ℕ × String → List (ℕ × String) → List (ℕ × String)
insert_decorated p [] = p ∷ []
insert_decorated p (q ∷ qs) = if leb p.0 q.0 then p ∷ q ∷ qs else q ∷ insert_decorated p qs

unfoldable pub sort_decorated : List (ℕ × String) → List (ℕ × String)
sort_decorated [] = []
sort_decorated (p ∷ ps) = insert_decorated p (sort_decorated ps)

abbrev pub undecorate : List (ℕ × String) → List String
undecorate [] = []
undecorate (p ∷ ps) = p.1 ∷ undecorate ps

unfoldable pub sort_by_sequence : List String → List String → Option (List String)
sort_by_sequence sequence ks = elim (decorate sequence ks) [
  | none ↦ none
  | some l ↦ some (undecorate (sort_decorated l))
]

module _ {V X : Type 0} where
  -- `current - entry.last_update >= window_seconds`
  abbrev pub is_due : ℕ → ℕ → DebounceEntry V X → Bool
  is_due current window e = leb (e.last_update + window) current

  unfoldable pub due_keys : ℕ → ℕ → Dict String (DebounceEntry V X) → List String
  due_keys current window [] = []
  due_keys current window ((k, e) ∷ d) =
      let rest = due_keys current window d in if is_due current window e then k ∷ rest else rest

  abbrev pub emission : String → DebounceEntry V X → Emission V X
  emission key e = record {
    metric = key;
    diff = e.payload;
    version = e.version;
    actor = e.actor;
    first_seen = e.first_seen;
    last_update = e.last_update;
    event_ids = sorted e.event_ids;
    extras = e.extras;
  }

  -- the loop of `flush_due` over the ready keys
  unfoldable pub flush_keys :
      List String → DebounceBuffer V X → Option (DebounceBuffer V X × List (Emission V X))
  flush_keys [] b = some (b, [])
  flush_keys (key ∷ ks) b = elim (get key b.entries) [
    | none ↦ none
    | some e ↦ elim (remove_first key b.sequence) [
      | none ↦ none
      | some rest ↦
          elim (flush_keys ks (record b { entries = remove key b.entries; sequence = rest })) [
            | none ↦ none
            | some (b', out) ↦ some (b', emission key e ∷ out)
          ]
    ]
  ]

  -- the metrics, which are left alone if nothing was ready
  unfoldable pub report_flush : List String → DebounceBuffer V X → DebounceBuffer V X
  report_flush [] b = b
  report_flush (k ∷ ks) b = record b {
    metrics =
        inc "emitted" (length (k ∷ ks)) (set_gauge "buffer_depth" (length b.entries) b.metrics);
  }

  unfoldable pub flush_due :
      ℕ → DebounceBuffer V X → Option (DebounceBuffer V X × List (Emission V X))
  unfolding due_keys sort_by_sequence decorate sort_decorated insert_decorated flush_keys
      report_flush
  flush_due current b =
      elim (sort_by_sequence b.sequence (due_keys current b.window_seconds b.entries)) [
        | none ↦ none
        | some ready ↦ elim (flush_keys ready b) [
          | none ↦ none
          | some (b', out) ↦ some (report_flush ready b', out)
        ]
      ]

  abbrev pub pending_keys : DebounceBuffer V X → List String
  pending_keys b = b.sequence
