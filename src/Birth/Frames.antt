-- ===== src/Birth/Frames.antt =====
-- What a frame holds for the database: the dimensions, and the payloads of the device, of its metrics
-- and of their properties (the helpers of `_persist_frame`). `str` of an object is a parameter.
pub mod Payloads
use Prim.Native.String
use text.Mathlib.Text.{◌==◌ as str_eq}
use dbirth.Base.{
  ℕ, String, Bool, true, false, ◌||◌, Option, none, some, List, [], ◌∷◌, ◌++◌, ◌==◌, leb,
  if◌then◌else◌,
}
use dbirth.Base.Dict.{Dict, get, string_key}
use dbirth.Base.Options.{◌>>=◌}
use dbirth.Base.Strings.{Unicode, is_empty, strip}
use dbirth.Birth.Payload.{
  ℤ, pos, negsuc, Object, nothing, boolean, integer, floating, string, bytes, mapping, array,
  Entries, no_entries, entry,
}
use dbirth.Db.Devices.{Device}
use dbirth.Db.Metrics.{Metric as MetricRow}

-- what stands under "datatype": the frames of the service have a number there
pub data Datatype : Type 0 where
  number : ℕ → Datatype
  named : String → Datatype

-- a metric of a frame; the paths are none where they could not be made
pub record FrameMetric (F : Type 0) : Type 0 where
  pub name : String
  pub value : Object F
  pub datatype : Datatype
  pub ts : ℕ
  pub props : Entries F
  pub uns_path : Option String
  pub canary_id : Option String

-- `MetricPropertyPayload`
pub record PropertyPayload (F : Type 0) : Type 0 where
  pub metric_id : ℕ
  pub key : String
  pub type : String
  pub value : Object F

abbrev pub unless_blank : String → Option String
unless_blank s = if is_empty s then none else some s

-- `_metric_datatype`; none is a ValueError
unfoldable pub metric_datatype : Datatype → Option String
unfolding strip
metric_datatype (number n) = none
metric_datatype (named s) = unless_blank (strip s)

-- `-2147483648 <= value <= 2147483647`
unfoldable pub fits_int : ℤ → Bool
fits_int (pos n) = leb n 2147483647
fits_int (negsuc n) = leb n 2147483647

abbrev pub string_payload : {F : Type 0} → ℕ → String → String → Option (PropertyPayload F)
string_payload metric_id key stripped =
    if is_empty stripped
    then none
    else some
        (record { metric_id = metric_id; key = key; type = "string"; value = string stripped })

-- `_build_property_payload`
unfoldable pub build_property_payload :
    {F : Type 0} → ℕ → String → Object F → Option (PropertyPayload F)
unfolding fits_int strip
build_property_payload metric_id key nothing = none
build_property_payload metric_id key (boolean b) =
    some (record { metric_id = metric_id; key = key; type = "boolean"; value = boolean b })
build_property_payload metric_id key (integer z) = some (record {
  metric_id = metric_id;
  key = key;
  type = if fits_int z then "int" else "long";
  value = integer z;
})
build_property_payload metric_id key (floating f) =
    some (record { metric_id = metric_id; key = key; type = "double"; value = floating f })
build_property_payload metric_id key (string s) = string_payload metric_id key (strip s)
build_property_payload metric_id key (bytes b) = none
build_property_payload metric_id key (mapping es) = none
build_property_payload metric_id key (array is) = none

module _ {F : Type 0} (u : Unicode) (str : Object F → String) where
  abbrev stripped_or : String → String → String
  stripped_or stripped rest = if is_empty stripped then rest else stripped

  abbrev pub dimension_or : Object F → String → String
  dimension_or (string s) rest = stripped_or (strip s) rest
  dimension_or nothing rest = rest
  dimension_or value rest = str value

  -- `_extract_dimension`
  unfoldable pub extract_dimension : List (FrameMetric F) → String → String → String
  unfolding strip
  extract_dimension [] key default = default
  extract_dimension (m ∷ ms) key default =
      let rest = extract_dimension ms key default in
      if str_eq (u.lower m.name) (u.lower key) then dimension_or m.value rest else rest

  -- a dimension that is required; none is an error, and the frame is skipped
  unfoldable pub required : List (FrameMetric F) → String → Option String
  unfolding extract_dimension strip
  required metrics key = unless_blank (strip (extract_dimension metrics key ""))

abbrev pub with_row : ℕ → String → Option String → Option String → List MetricRow → List MetricRow
with_row device_id name (some path) (some datatype) rest =
    if is_empty name || is_empty path
    then rest
    else record { device_id = device_id; name = name; uns_path = path; datatype = datatype } ∷ rest
with_row device_id name path datatype rest = rest

module _ {F : Type 0} where
  -- `metric_payloads`
  unfoldable pub metric_payloads : ℕ → List (FrameMetric F) → List MetricRow
  unfolding metric_datatype
  metric_payloads device_id [] = []
  metric_payloads device_id (m ∷ ms) =
      with_row device_id m.name m.uns_path (metric_datatype m.datatype)
        (metric_payloads device_id ms)

  abbrev with_payload :
      Option (PropertyPayload F) → List (PropertyPayload F) → List (PropertyPayload F)
  with_payload none rest = rest
  with_payload (some p) rest = p ∷ rest

  unfoldable pub entry_payloads : ℕ → Entries F → List (PropertyPayload F)
  unfolding build_property_payload
  entry_payloads metric_id no_entries = []
  entry_payloads metric_id (entry key value es) =
      with_payload (build_property_payload metric_id key value) (entry_payloads metric_id es)

  abbrev payloads_of : Option ℕ → Entries F → List (PropertyPayload F)
  payloads_of none es = []
  payloads_of (some id) es = if id == 0 then [] else entry_payloads id es

  -- `property_payloads`
  unfoldable pub property_payloads : Dict String ℕ → List (FrameMetric F) → List (PropertyPayload F)
  unfolding entry_payloads
  property_payloads ids [] = []
  property_payloads ids (m ∷ ms) = payloads_of (get m.name ids) m.props ++ property_payloads ids ms

-- `DevicePayload(...)`, when all that it needs is there; none is an early return
unfoldable pub device_payload :
    {F : Type 0}
    → Unicode
    → (Object F → String)
    → String
    → String
    → Option String
    → Option String
    → List (FrameMetric F)
    → Option Device
unfolding required
device_payload u str group edge_node device device_uns_path metrics = do
  device_name ← device
  device_named ← unless_blank device_name
  uns_path ← device_uns_path
  path ← unless_blank uns_path
  country ← required u str metrics "country"
  business_unit ← required u str metrics "business_unit"
  plant ← required u str metrics "plant"
  some (record {
    group_id = group;
    country = country;
    business_unit = business_unit;
    plant = plant;
    edge = edge_node;
    device = device_named;
    uns_path = path;
  })
