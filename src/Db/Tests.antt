-- ===== src/Db/Tests.antt =====
-- Upserts on small tables, and the theorems at concrete inputs.
use native.Mathlib.Decide.{ℕ_discrete}
use dbirth.Base.{
  ℕ, ◌<◌, false, arith, ◌≡◌, refl, true, none, some, List, [], ◌∷◌, ltb, if◌then◌else◌, ◌==◌,
}
use dbirth.Base.Dict.{get, put, contains, String-discrete, nat_key, string_key}
use dbirth.Base.Result.{ok, err}
use dbirth.Db.Table.{Table, select_one, breaks, update_row, insert_row}
use dbirth.Db.Upserts.{inserted, updated, noop, upsert_failed}
use dbirth.Db.Devices.{
  Device, DeviceStored, device_rows_equal, upsert_device, upsert_device-Stored, upsert_device_again,
}
use dbirth.Db.Metrics.{Metric, MetricStored, upsert_metric, upsert_metric-Stored}
use dbirth.Db.MetricsBulk.Ids.{Maps, upsert_metrics_bulk-Maps}
use dbirth.Db.MetricsBulk.Rows.{IsSound}
use dbirth.Db.MetricsBulk.{upsert_metrics_bulk, upsert_batches, place_all, names_of, read_ids}
use dbirth.Base.Options.{◌>>=◌}
use dbirth.Db.PropertyTable.Last.{last_of}
use dbirth.Db.PropertyTable.Written.{Written, upsert_metric_properties_bulk_again}
use dbirth.Db.PropertyTable.Equality.{Comparable, property_rows_equal}
use dbirth.Db.PropertyTable.Single.{upsert_metric_property}
use dbirth.Db.PropertyTable.{
  PropertyPayload, PropertyKey, property_key, Row, refused, add_to_group, group_from, row_of,
  group_rows, all_rows, place_all as place_rows, place_batches, upsert_metric_properties_bulk,
}
use dbirth.Db.Properties.{
  PropertyType, Columns, Conversions, allowed, is_legal, NullFor, property_column_values,
  property_column_values-IsLegal,
}

abbrev pump : Device
pump = record {
  group_id = "g";
  country = "PT";
  business_unit = "cement";
  plant = "souselas";
  edge = "e1";
  device = "pump";
  uns_path = "pt/cement/souselas/pump";
}

-- The same device, which has moved to another plant.
abbrev moved : Device
moved = record pump { plant = "alhandra"; uns_path = "pt/cement/alhandra/pump" }

-- Another device under the path of the first.
abbrev thief : Device
thief = record pump { group_id = "h" }

abbrev devices : Table Device
devices = record { rows = (1, pump) ∷ (2, record thief { uns_path = "x" }) ∷ []; next_id = 3 }

abbrev after_move : Table Device
after_move = record devices { rows = (1, moved) ∷ (2, record thief { uns_path = "x" }) ∷ [] }

moves : upsert_device moved devices ≡ (ok (updated, 1, moved), after_move)
unfolding upsert_device select_one update_row breaks device_rows_equal put ℕ_discrete
moves = refl

-- The path is that of row 1, and the identity that of row 2.
refuses : upsert_device thief devices ≡ (err upsert_failed, devices)
unfolding upsert_device select_one update_row breaks device_rows_equal put
refuses = refl

upsert_device-Stored_example : DeviceStored moved devices (upsert_device moved devices)
upsert_device-Stored_example = upsert_device-Stored moved devices

upsert_device_again_run : upsert_device moved after_move ≡ (ok (noop, 1, moved), after_move)
upsert_device_again_run = upsert_device_again moved devices after_move updated 1 moved moves

abbrev speed : Metric
speed = record {
  device_id = 1;
  name = "speed";
  uns_path = "pt/cement/souselas/pump/speed";
  datatype = "float";
}

abbrev no_metrics : Table Metric
no_metrics = record { rows = []; next_id = 7 }

inserts :
    upsert_metric (1 ∷ 2 ∷ []) speed no_metrics
    ≡ (ok (inserted, 7, speed), record { rows = (7, speed) ∷ []; next_id = 8 })
unfolding upsert_metric select_one insert_row breaks put contains ℕ_discrete
inserts = refl

upsert_metric-Stored_example :
    MetricStored speed no_metrics (upsert_metric (1 ∷ 2 ∷ []) speed no_metrics)
upsert_metric-Stored_example = upsert_metric-Stored (1 ∷ 2 ∷ []) speed no_metrics

-- Numbers, of which 13 cannot be converted.
abbrev conversions : Conversions ℕ ℕ ℕ
conversions = record {
  to_int = λ n. if n == 13 then none else some n;
  to_float = λ n. some n;
  to_str = λ n. "n";
  to_bool = λ n. ltb 0 n;
}

abbrev null_columns : Columns ℕ ℕ
null_columns = record {
  value_int = none;
  value_long = none;
  value_float = none;
  value_double = none;
  value_string = none;
  value_bool = none;
}

abbrev columns : Columns ℕ ℕ
columns = record null_columns { value_int = some 5 }

converts : property_column_values conversions "int" (some 5) ≡ some columns
unfolding property_column_values allowed
converts = refl

unknown_type : property_column_values conversions "date" (some 5) ≡ none
unfolding property_column_values allowed
unknown_type = refl

-- A property without a value is let through, with columns that the table refuses.
no_value : property_column_values conversions "int" none ≡ some null_columns
unfolding property_column_values allowed
no_value = refl

property_column_values-IsLegal_example :
    (t : PropertyType) × (allowed "int" ≡ some t)
    × (is_legal conversions t columns ≡ true)
    × NullFor conversions (some 5) columns
property_column_values-IsLegal_example =
    property_column_values-IsLegal conversions "int" (some 5) columns converts

abbrev numbers : Comparable ℕ ℕ
numbers = record { same_number = λ a b. a == b; same_float = λ a b. a == b }

abbrev property : ℕ → PropertyPayload ℕ
property n = record { metric_id = 7; key = "max"; type = "int"; value = some n }

abbrev five : Row ℕ ℕ
five = record { type = PropertyType.int; columns = columns }

abbrev limit : PropertyKey
limit = record { metric_id = 7; key = "max" }

-- Two payloads of one key: the last one counts, and one row is written.
two_payloads :
    upsert_metric_properties_bulk conversions
      (property_rows_equal numbers)
      (λ id. id == 7)
      1
      (property 3 ∷ property 5 ∷ [])
      []
    ≡ (ok 1, (limit, five) ∷ [])
unfolding upsert_metric_properties_bulk group_from add_to_group all_rows group_rows row_of allowed
    property_column_values place_batches place_rows get put contains String-discrete ℕ_discrete
two_payloads = refl

no_metric :
    upsert_metric_property conversions (property_rows_equal numbers) (λ id. false) (property 5) []
    ≡ (err refused, [])
unfolding upsert_metric_property row_of allowed property_column_values get
no_metric = refl

same_number : (a b : ℕ) → (a == b) ≡ true → a ≡ b
same_number a b h = ground (arith, h)

upsert_metric_properties_bulk_again_example :
    (rows : List (PropertyKey × Row ℕ ℕ)) × (all_rows conversions
        (group_from (property 3 ∷ property 5 ∷ []) [])
      ≡ some rows)
    × ((k : PropertyKey)
        → get k rows ≡ (last_of k (property 3 ∷ property 5 ∷ []) >>= row_of conversions))
    × Written numbers rows [] ((limit, five) ∷ [])
    × (upsert_metric_properties_bulk conversions
          (property_rows_equal numbers)
          (λ id. id == 7)
          1
          (property 3 ∷ property 5 ∷ [])
          ((limit, five) ∷ [])
        ≡ (ok 0, (limit, five) ∷ []))
upsert_metric_properties_bulk_again_example =
    upsert_metric_properties_bulk_again conversions numbers (λ id. id == 7) (λ n. ground arith)
      same_number (λ n. ground arith) 1 (property 3 ∷ property 5 ∷ []) 1 [] ((limit, five) ∷ [])
      two_payloads

abbrev torque : Metric
torque = record speed { name = "torque"; uns_path = "pt/cement/souselas/pump/torque" }

abbrev both : Table Metric
both = record { rows = (7, speed) ∷ (8, torque) ∷ []; next_id = 9 }

bulk_run :
    upsert_metrics_bulk (1 ∷ []) 1 (speed ∷ torque ∷ []) no_metrics
    ≡ (ok (("speed", 7) ∷ ("torque", 8) ∷ []), both)
unfolding upsert_metrics_bulk upsert_batches place_all names_of read_ids select_one insert_row
    breaks put contains String-discrete ℕ_discrete
bulk_run = refl

-- In a batch of two devices only the metrics of the first one are read back.
second_device_missed :
    (upsert_metrics_bulk (1 ∷ 2 ∷ []) 9 (speed ∷ record torque { device_id = 2 } ∷ []) no_metrics).0
    ≡ ok (("speed", 7) ∷ [])
unfolding upsert_metrics_bulk upsert_batches place_all names_of read_ids select_one insert_row
    breaks put contains String-discrete ℕ_discrete
second_device_missed = refl

none_used : (id : ℕ) (row : Metric) → get id no_metrics.rows ≡ some row → id < 7
unfolding get
none_used id row e = absurd (cc (e))

no_metrics-IsSound : IsSound no_metrics
no_metrics-IsSound = record { fresh = none_used; distinct = tt }

upsert_metrics_bulk-Maps_example :
    Maps 1 (speed ∷ torque ∷ []) both.rows (("speed", 7) ∷ ("torque", 8) ∷ [])
upsert_metrics_bulk-Maps_example =
    upsert_metrics_bulk-Maps (1 ∷ []) 1 1 (speed ∷ torque ∷ []) no_metrics both
      (("speed", 7) ∷ ("torque", 8) ∷ []) no_metrics-IsSound (refl, (refl, tt)) bulk_run
