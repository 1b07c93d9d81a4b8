-- ===== src/Cdc/Debounce/Tests.antt =====
-- Runs of the buffer, and the theorems at concrete inputs.
use dbirth.Base.{ℕ, ◌+◌, ◌≡◌, refl, none, some, [], ◌∷◌, arith, length}
use dbirth.Base.Dict.{get, put, remove, contains, add, String-discrete, string_key}
use dbirth.Cdc.Debounce.{
  DebounceEntry, DebounceBuffer, Update, inc, set_gauge, update, remove_first, fresh, merge_into,
  add_update,
}
use dbirth.Cdc.Debounce.Due.{flush_due}
use dbirth.Cdc.Debounce.Invariant.{IsValid, Keeps, add_update-IsValid}
use dbirth.Cdc.Debounce.Flush.{ready, waiting, flush_due_exact}
use dbirth.Base.Text.{sorted}
use mathlib.Core.Option
use mathlib.Core.List.{map}

abbrev change : Update ℕ ℕ
change = record {
  diff = ("unit", 1) ∷ [];
  version = some 4;
  actor = some "ops";
  event_id = some "7:4";
  timestamp = none;
  extras = [];
}

abbrev quiet : DebounceEntry ℕ ℕ
quiet = record (fresh "a" 10) { payload = ("unit", 1) ∷ []; event_ids = "1:1" ∷ [] }

abbrev busy : DebounceEntry ℕ ℕ
busy = record (fresh "b" 20) { last_update = 95 }

abbrev full : DebounceBuffer ℕ ℕ
full = record {
  window_seconds = 30;
  max_entries = 2;
  metrics = record { counters = []; gauges = [] };
  entries = ("a", quiet) ∷ ("b", busy) ∷ [];
  sequence = "a" ∷ "b" ∷ [];
}

full-IsValid : IsValid full
unfolding contains String-discrete
full-IsValid = record {
  aligned = record { distinct = (refl, (refl, tt)); in_step = refl; named = (refl, (refl, tt)) };
  within = omega arith;
}

-- A third key takes the place of the one that was updated least recently.
evicted : Option.map (λ b. b.sequence) (add_update "c" change 100 full) ≡ some ("b" ∷ "c" ∷ [])
unfolding add_update get put remove inc set_gauge update add remove_first String-discrete
evicted = refl

flushed : Option.map (λ r. map (λ e. e.metric) r.1) (flush_due 100 full) ≡ some ("a" ∷ [])
unfolding flush_due get put remove inc set_gauge remove_first String-discrete sorted
flushed = refl

add_update-IsValid_example :
    (b' : DebounceBuffer ℕ ℕ) × (add_update "c" change 100 full ≡ some b')
    × IsValid b'
    × Keeps (merge_into "c" change 100 full) b'
add_update-IsValid_example = add_update-IsValid "c" change 100 full full-IsValid

flush_due_exact_example :
    (b' : DebounceBuffer ℕ ℕ) × (flush_due 100 full ≡ some (b', ready 100 30 full.entries))
    × (b'.entries ≡ waiting 100 30 full.entries)
    × IsValid b'
    × (length (ready 100 30 full.entries) + length b'.entries ≡ 2)
flush_due_exact_example = flush_due_exact 100 full full-IsValid
