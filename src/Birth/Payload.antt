-- ===== src/Birth/Payload.antt =====
-- What a Sparkplug payload holds, as the service reads it: `_metric_value` and `_props_to_dict` make
-- Python objects of its values. Floats are of any type.
use text.Mathlib.Text.{◌==◌ as str_eq}
use dbirth.Base.{ℕ, String, Bool, Option, none, some, List, [], ◌∷◌, if◌then◌else◌}

-- Python's integers: `negsuc n` is minus the successor of `n`.
pub data ℤ : Type 0 where
  pos negsuc : ℕ → ℤ

-- Python's objects, as far as a payload gives them
mutual
  pub data Object (F : Type 0) : Type 0 where
    nothing : Object F
    boolean : Bool → Object F
    integer : ℤ → Object F
    floating : F → Object F
    string : String → Object F
    bytes : List ℕ → Object F
    mapping : Entries F → Object F
    array : Items F → Object F

  pub data Entries (F : Type 0) : Type 0 where
    no_entries : Entries F
    entry : String → Object F → Entries F → Entries F

  pub data Items (F : Type 0) : Type 0 where
    no_items : Items F
    item : Object F → Items F → Items F

-- `Payload.PropertySet`; a scalar value is already the object that its field gives
mutual
  pub data PropertySet (F : Type 0) : Type 0 where
    property_set : List String → PropertyValues F → PropertySet F

  pub data PropertyValues (F : Type 0) : Type 0 where
    no_values : PropertyValues F
    value_then : PropertyValue F → PropertyValues F → PropertyValues F

  pub data PropertyValue (F : Type 0) : Type 0 where
    unset : PropertyValue F
    scalar : Object F → PropertyValue F
    propertyset : PropertySet F → PropertyValue F
    propertysets : PropertySets F → PropertyValue F

  pub data PropertySets (F : Type 0) : Type 0 where
    no_sets : PropertySets F
    set_then : PropertySet F → PropertySets F → PropertySets F

-- the value of a metric: a data set has columns, and rows of elements that may be unset
pub data MetricValue (F : Type 0) : Type 0 where
  no_value : MetricValue F
  scalar_value : Object F → MetricValue F
  dataset_value : List String → List (List (Option (Object F))) → MetricValue F

-- `Payload.Metric`: a field that is not set has its default
pub record Metric (F : Type 0) : Type 0 where
  pub name : String
  pub alias : ℕ
  pub datatype : ℕ
  pub timestamp : ℕ
  pub is_null : Bool
  pub value : MetricValue F
  pub properties : PropertySet F

module _ {F : Type 0} where
  -- `result[key] = value`
  unfoldable pub put_entry : String → Object F → Entries F → Entries F
  put_entry k v no_entries = entry k v no_entries
  put_entry k v (entry j w es) =
      let rest = put_entry k v es in if str_eq j k then entry j v es else entry j w rest

  unfoldable mutual
    unfolding put_entry

    -- `_props_to_dict`
    pub props_to_dict : PropertySet F → Entries F
    props_to_dict (property_set keys values) = zip_into keys values no_entries

    -- `for key, value in zip(props_set.keys, props_set.values)`
    pub zip_into : List String → PropertyValues F → Entries F → Entries F
    zip_into keys no_values result = result
    zip_into [] (value_then v vs) result = result
    zip_into (k ∷ ks) (value_then v vs) result = zip_into ks vs (put_entry k (object_of v) result)

    pub object_of : PropertyValue F → Object F
    object_of unset = nothing
    object_of (scalar o) = o
    object_of (propertyset s) = mapping (props_to_dict s)
    object_of (propertysets ss) = array (all_dicts ss)

    pub all_dicts : PropertySets F → Items F
    all_dicts no_sets = no_items
    all_dicts (set_then s ss) = item (mapping (props_to_dict s)) (all_dicts ss)

  abbrev pub element : Option (Object F) → Object F
  element none = nothing
  element (some o) = o

  unfoldable pub row_items : List (Option (Object F)) → Items F
  row_items [] = no_items
  row_items (e ∷ es) = item (element e) (row_items es)

  unfoldable pub rows_items : List (List (Option (Object F))) → Items F
  unfolding row_items
  rows_items [] = no_items
  rows_items (r ∷ rs) = item (array (row_items r)) (rows_items rs)

  unfoldable pub column_items : List String → Items F
  column_items [] = no_items
  column_items (c ∷ cs) = item (string c) (column_items cs)

  -- `_metric_value`
  unfoldable pub metric_value : MetricValue F → Object F
  unfolding rows_items column_items
  metric_value no_value = nothing
  metric_value (scalar_value o) = o
  metric_value (dataset_value columns rows) = mapping (
      entry "columns" (array (column_items columns))
        (entry "rows" (array (rows_items rows)) no_entries))
