-- ===== src/Birth/Tests.antt =====
-- Runs of the birth service, and the claims at concrete inputs.
use native.Mathlib.Decide.{ℕ_discrete}
use dbirth.Base.{
  ℕ, String, Bool, true, false, ◌≡◌, ◌≢◌, refl, arith, Option, none, some, List, [], ◌∷◌, leb, ◌&&◌,
}
use dbirth.Base.Dict.{Dict, string_key, nat_key, String-discrete, get, contains}
use dbirth.Base.Result.{ok}
use dbirth.Base.Strings.{Unicode, split}
use dbirth.Birth.AliasCache.RoundTrip.{IsRegistry, deserialize-serialize}
use dbirth.Birth.AliasCache.{
  AliasKey, alias_key, AliasKey-discrete, serialize_alias_maps, deserialize_alias_maps, str,
}
use dbirth.Birth.Aliases.Resolution.{registered, resolve_name-ingest_birth, resolve_name_at_node}
use dbirth.Birth.Aliases.Throttle.{IsSpaced}
use dbirth.Birth.Aliases.{
  AliasInfo, AliasMap, Rebirths, Subscriber, ingest_birth, resolve_name, known,
}
use dbirth.Birth.Compression.{Payload, Codecs, decode_sparkplug_payload, is_compressed_wrapper}
use dbirth.Birth.Frames.Payloads.{Converts, Storable, build_property_payload-Storable}
use dbirth.Birth.Frames.{build_property_payload, fits_int, PropertyPayload}
use dbirth.Birth.Messages.Numbers.{DeviceUpserts, handle_all-DeviceUpserts}
use dbirth.Birth.Messages.Sequences.{Message, handle_all, open_subscriber, handle_all-IsSpaced}
use dbirth.Birth.Messages.{Settings, World, Service}
use dbirth.Birth.Payload.{
  ℤ, pos, negsuc, Object, integer, string, boolean, floating, Metric, scalar_value, props_to_dict,
  property_set, no_values, no_entries,
}
use dbirth.Birth.Persistence.{Repository}
use dbirth.Birth.Topics.{topic_parts}
use dbirth.Db.Devices.{Device}
use dbirth.Db.Properties.{Conversions}
use dbirth.Uns.CanaryId.{open_generator}

abbrev kiln : AliasKey
kiln = record { group = "Secil"; edge_node = "edge"; device = some "kiln" }

abbrev node : AliasKey
node = record { group = "Secil"; edge_node = "edge"; device = none }

abbrev metric : String → ℕ → Metric ℕ
metric name alias = record {
  name = name;
  alias = alias;
  datatype = 9;
  timestamp = 1;
  is_null = false;
  value = scalar_value (integer (pos 3));
  properties = property_set [] no_values;
}

abbrev speed : AliasInfo ℕ
speed = record { name = "speed"; datatype = 9; props = no_entries }

abbrev settings : Rebirths
settings = record { auto_request_rebirth = true; rebirth_throttle_seconds = 10 }

abbrev fresh : Subscriber ℕ
fresh = open_subscriber []

abbrev birth : List (Metric ℕ)
birth = metric "temp" 4 ∷ metric "speed" 4 ∷ metric "" 5 ∷ []

birth_registers : registered 4 birth ≡ some speed
unfolding registered props_to_dict
birth_registers = refl

four : ◌≢◌ {A = ℕ} 4 0
four = omega arith

resolve_name-ingest_birth_example :
    resolve_name settings kiln (metric "" 4) 30 (ingest_birth kiln birth fresh)
    ≡ ("speed", ingest_birth kiln birth fresh)
resolve_name-ingest_birth_example =
    resolve_name-ingest_birth settings kiln birth fresh (metric "" 4) 30 speed refl four
      birth_registers

nothing_known : known kiln 4 fresh ≡ none
unfolding known get
nothing_known = refl

resolve_name_at_node_run :
    resolve_name settings kiln (metric "" 4) 30 (ingest_birth node birth fresh)
    ≡ ("speed", ingest_birth node birth fresh)
resolve_name_at_node_run =
    resolve_name_at_node settings kiln "kiln" birth fresh (metric "" 4) 30 speed refl refl four
      nothing_known birth_registers

unknown_alias : (resolve_name settings kiln (metric "" 6) 30 fresh).0 ≡ "alias:6"
unfolding resolve_name known get str
unknown_alias = refl

abbrev registry : Dict AliasKey (AliasMap ℕ)
registry = (kiln, (4, speed) ∷ []) ∷ (node, (12, speed) ∷ (3, speed) ∷ []) ∷ []

registry-IsRegistry : IsRegistry registry
unfolding contains AliasKey-discrete String-discrete ℕ_discrete
registry-IsRegistry = record {
  plain = (
    record { group_free = refl; edge_node_free = refl; device_named = refl },
    (record { group_free = refl; edge_node_free = refl; device_named = refl }, tt),
  );
  distinct = (refl, (refl, tt));
  aliases = ((refl, tt), ((refl, (refl, tt)), tt));
}

deserialize-serialize_example :
    deserialize_alias_maps (serialize_alias_maps registry) ≡ some registry
deserialize-serialize_example = deserialize-serialize registry registry-IsRegistry

abbrev ascii : Unicode
ascii = record {
  is_alnum = λ c. leb 48 c && leb c 122;
  lower = λ s. s;
  upper = λ s. s;
  nfc = λ s. s;
}

-- a database that keeps the devices and refuses the rest
abbrev repository : Repository (List Device) ℕ
repository = record {
  upsert_device = λ payload s. (ok (some 1), payload ∷ s);
  upsert_metrics_bulk = λ rows s. (ok [], []);
  upsert_metric_properties_bulk = λ rows s. (ok 0, []);
}

abbrev plain : Payload ℕ
plain = record { metrics = metric "" 4 ∷ []; uuid = ""; body = [] }

abbrev wrapper : Payload ℕ
wrapper = record { metrics = []; uuid = "SPBV1.0_COMPRESSED"; body = 9 ∷ [] }

-- The wrapper is the message without bytes; its body has no gzip header.
abbrev parse : List ℕ → Option (Payload ℕ)
parse [] = some wrapper
parse _ = some plain

abbrev codecs : Codecs ℕ
codecs = record { parse = parse; gunzip = λ bytes. none; inflate = λ bytes. some bytes }

unwraps : decode_sparkplug_payload codecs [] ≡ some plain
unfolding decode_sparkplug_payload is_compressed_wrapper
unwraps = refl

abbrev world : World (List Device) ℕ
world = record {
  unicode = ascii;
  str = λ o. "object";
  codecs = codecs;
  dumps = λ frame. "{}";
  writable = λ path. true;
  repository = some repository;
}

abbrev all_settings : Settings
all_settings = record {
  rebirths = settings;
  db_mode = "local";
  write_jsonl = true;
  jsonl_file = λ topic. topic;
  topic_all = "spBv1.0/Secil/+/#";
  topic_nbirth_all = "spBv1.0/Secil/NBIRTH/#";
  topic_dbirth_all = "spBv1.0/Secil/DBIRTH/#";
}

abbrev start : Service (List Device) ℕ
start = record { subscriber = fresh; database = []; generator = open_generator; lines = [] }

abbrev at : ℕ → Message
at t = record { topic = "spbv1.0/Secil/DDATA/edge/kiln"; payload = []; clock = λ i. t }

parts_run : topic_parts ascii "spBv1.0/Secil/x" ≡ none
unfolding topic_parts split
parts_run = refl

handle_all-IsSpaced_example :
    IsSpaced 10
      (handle_all all_settings world (at 20 ∷ at 25 ∷ at 31 ∷ []) start).subscriber.published
handle_all-IsSpaced_example =
    handle_all-IsSpaced all_settings world (at 20 ∷ at 25 ∷ at 31 ∷ []) start [] refl

handle_all-DeviceUpserts_run :
    DeviceUpserts repository [] (handle_all all_settings world (at 20 ∷ at 25 ∷ []) start).database
handle_all-DeviceUpserts_run =
    handle_all-DeviceUpserts all_settings world repository refl (at 20 ∷ at 25 ∷ []) start

abbrev to_int : Object ℕ → Option ℤ
to_int (integer z) = some z
to_int _ = none

abbrev to_float : Object ℕ → Option ℕ
to_float (floating f) = some f
to_float _ = none

abbrev to_str : Object ℕ → String
to_str (string s) = s
to_str _ = "object"

abbrev to_bool : Object ℕ → Bool
to_bool (boolean b) = b
to_bool _ = true

abbrev conversions : Conversions (Object ℕ) ℤ ℕ
conversions = record { to_int = to_int; to_float = to_float; to_str = to_str; to_bool = to_bool }

conversions-Converts : Converts conversions
conversions-Converts = record {
  int_of = λ z. refl;
  float_of = λ f. refl;
  str_of = λ s. refl;
  bool_of = λ b. refl;
}

abbrev large : PropertyPayload ℕ
large = record { metric_id = 7; key = "max"; type = "long"; value = integer (negsuc 2147483648) }

large_built : build_property_payload {F = ℕ} 7 "max" (integer (negsuc 2147483648)) ≡ some large
unfolding build_property_payload fits_int
large_built = refl

build_property_payload-Storable_example : Storable conversions large
build_property_payload-Storable_example =
    build_property_payload-Storable conversions conversions-Converts 7 "max"
      (integer (negsuc 2147483648)) large (omega arith) large_built
