-- ===== src/Birth/Persistence/Tests.antt =====
-- Frames on the filled repository: one with names for datatypes, which is persisted whole, and the
-- messages of the service, which are not.
use native.Mathlib.Decide.{ℕ_discrete}
use dbirth.Base.{
  ℕ, String, Bool, true, false, ◌≡◌, refl, Option, none, some, List, [], ◌∷◌, ◌==◌, ltb,
}
use dbirth.Base.Dict.{get, put, contains, string_key, nat_key, String-discrete}
use dbirth.Base.Strings.{Unicode, is_space, strip}
use dbirth.Birth.Frames.{
  named, FrameMetric, metric_datatype, build_property_payload, fits_int, extract_dimension,
  required, metric_payloads, entry_payloads, property_payloads, device_payload,
}
use dbirth.Birth.Messages.Sequences.{Message, handle_all, open_subscriber}
use dbirth.Birth.Messages.{Settings, World, Service}
use dbirth.Birth.Payload.{ℤ, pos, negsuc, Object, string, integer, no_entries, entry}
use dbirth.Birth.Persistence.Database.{Tables, metadata_repository, handle_all_tables}
use dbirth.Birth.Persistence.{persist_frame}
use dbirth.Db.Devices.{upsert_device}
use dbirth.Db.MetricsBulk.{upsert_metrics_bulk, upsert_batches, place_all, names_of, read_ids}
use dbirth.Db.Properties.{Conversions, Columns, PropertyType, allowed, property_column_values}
use dbirth.Db.PropertyTable.Equality.{Comparable, property_rows_equal}
use dbirth.Db.PropertyTable.{
  property_key, add_to_group, group_from, row_of, group_rows, all_rows, place_all as place_rows,
  place_batches, upsert_metric_properties_bulk,
}
use dbirth.Db.Table.{select_one, insert_row, breaks}
use dbirth.Uns.CanaryId.{open_generator}

abbrev ascii : Unicode
ascii = record { is_alnum = λ c. ltb 47 c; lower = λ s. s; upper = λ s. s; nfc = λ s. s }

abbrev to_int : Object ℕ → Option ℤ
to_int (integer z) = some z
to_int _ = none

abbrev conversions : Conversions (Object ℕ) ℤ ℕ
conversions = record {
  to_int = to_int;
  to_float = λ o. none;
  to_str = λ o. "object";
  to_bool = λ o. true;
}

abbrev same_integer : ℤ → ℤ → Bool
same_integer (pos m) (pos n) = m == n
same_integer (negsuc m) (negsuc n) = m == n
same_integer m n = false

abbrev comparable : Comparable ℤ ℕ
comparable = record { same_number = same_integer; same_float = λ a b. a == b }

abbrev empty : Tables ℕ
empty = record {
  devices = record { rows = []; next_id = 1 };
  metrics = record { rows = []; next_id = 5 };
  properties = [];
}

abbrev dimension : String → String → FrameMetric ℕ
dimension name value = record {
  name = name;
  value = string value;
  datatype = named " ";
  ts = 0;
  props = no_entries;
  uns_path = none;
  canary_id = none;
}

abbrev speed : FrameMetric ℕ
speed = record {
  name = "speed";
  value = integer (pos 3);
  datatype = named " Int32 ";
  ts = 0;
  props = entry "max" (integer (pos 9)) no_entries;
  uns_path = some "g/e/kiln/speed";
  canary_id = some "g.e.kiln.speed";
}

abbrev frame : List (FrameMetric ℕ)
frame =
    dimension "country" " PT "
    ∷ dimension "business_unit" "cement"
    ∷ dimension "plant" "souselas"
    ∷ speed
    ∷ []

abbrev nulls : Columns ℤ ℕ
nulls = record {
  value_int = none;
  value_long = none;
  value_float = none;
  value_double = none;
  value_string = none;
  value_bool = none;
}

abbrev stored : Tables ℕ
stored = record {
  devices = record {
    rows =
        (
          1,
          record {
            group_id = "g";
            country = "PT";
            business_unit = "cement";
            plant = "souselas";
            edge = "e";
            device = "kiln";
            uns_path = "g/e/kiln";
          },
        )
        ∷ [];
    next_id = 2;
  };
  metrics = record {
    rows =
        (
          5,
          record { device_id = 1; name = "speed"; uns_path = "g/e/kiln/speed"; datatype = "Int32" },
        )
        ∷ [];
    next_id = 6;
  };
  properties =
      (
        record { metric_id = 5; key = "max" },
        record { type = PropertyType.int; columns = record nulls { value_int = some (pos 9) } },
      )
      ∷ [];
}

persists_names :
    persist_frame
      (some (metadata_repository conversions (property_rows_equal comparable)))
      ascii
      (λ o. "object")
      "local"
      "g"
      "e"
      (some "kiln")
      (some "g/e/kiln")
      frame
      empty
    ≡ stored
unfolding persist_frame device_payload required extract_dimension strip is_space metric_payloads
    metric_datatype property_payloads entry_payloads build_property_payload fits_int upsert_device
    select_one insert_row breaks upsert_metrics_bulk upsert_batches place_all names_of read_ids get
    put contains String-discrete ℕ_discrete upsert_metric_properties_bulk group_from add_to_group
    all_rows group_rows row_of allowed property_column_values place_batches place_rows
persists_names = refl

abbrev message_settings : Settings
message_settings = record {
  rebirths = record { auto_request_rebirth = false; rebirth_throttle_seconds = 10 };
  db_mode = "local";
  write_jsonl = false;
  jsonl_file = λ topic. topic;
  topic_all = "spBv1.0/+/+/#";
  topic_nbirth_all = "spBv1.0/+/NBIRTH/#";
  topic_dbirth_all = "spBv1.0/+/DBIRTH/#";
}

abbrev world : World (Tables ℕ) ℕ
world = record {
  unicode = ascii;
  str = λ o. "object";
  codecs = record {
    parse = λ bytes. some (record { metrics = []; uuid = ""; body = [] });
    gunzip = λ bytes. none;
    inflate = λ bytes. none;
  };
  dumps = λ frame. "{}";
  writable = λ path. true;
  repository = some (metadata_repository conversions (property_rows_equal comparable));
}

abbrev message : Message
message = record { topic = "spbv1.0/g/DDATA/e/kiln"; payload = []; clock = λ i. 20 }

abbrev start : Service (Tables ℕ) ℕ
start = record {
  subscriber = open_subscriber [];
  database = stored;
  generator = open_generator;
  lines = [];
}

handle_all_tables_example :
    ((handle_all message_settings world (message ∷ []) start).database.metrics ≡ stored.metrics)
    × ((handle_all message_settings world (message ∷ []) start).database.properties
        ≡ stored.properties)
handle_all_tables_example =
    handle_all_tables message_settings world conversions (property_rows_equal comparable) refl
      (message ∷ []) start
