-- ===== src/Birth/Aliases.antt =====
-- The registry of aliases that births fill, the names that it gives to metrics, and the requests for
-- a rebirth when it has none (`_ensure_map`, `_ingest_birth`, `_resolve_name`,
-- `_may_request_rebirth`). Times are in ticks; the subscriber keeps what it published.
pub mod Resolution
pub mod Throttle
use Prim.Native.String
use dbirth.Base.{
  ℕ, ◌+◌, String, Bool, true, false, ◌||◌, Option, none, some, List, [], ◌∷◌, ◌==◌, leb,
  if◌then◌else◌,
}
use dbirth.Base.Dict.{Dict, get, put, nat_key}
use dbirth.Base.Strings.{is_empty, ◌<>◌}
use dbirth.Birth.AliasCache.{AliasKey, alias_key, str}
use dbirth.Birth.Payload.{Entries, Metric, props_to_dict}

-- the entry of an alias: "name", "datatype" and "props"
pub record AliasInfo (F : Type 0) : Type 0 where
  pub name : String
  pub datatype : ℕ
  pub props : Entries F

abbrev pub AliasMap : Type 0 → Type 0
AliasMap F = Dict ℕ (AliasInfo F)

-- what of the settings counts here
pub record Rebirths : Type 0 where
  pub auto_request_rebirth : Bool
  pub rebirth_throttle_seconds : ℕ

-- a request that was published, with the key and the time it was made for
pub record Request : Type 0 where
  pub topic : String
  pub key : AliasKey
  pub at : ℕ

pub record Subscriber (F : Type 0) : Type 0 where
  pub alias_maps : Dict AliasKey (AliasMap F)
  pub last_rebirth_request : Dict AliasKey ℕ
  pub published : List Request

-- `f"spBv1.0/{group}/{edge_node}/command/rebirth"`
unfoldable pub rebirth_topic : AliasKey → String
rebirth_topic k = "spBv1.0/" <> k.group <> "/" <> k.edge_node <> "/command/rebirth"

abbrev pub value_or : {V : Type 0} → V → Option V → V
value_or v none = v
value_or v (some w) = w

abbrev pub publish_when : {F : Type 0} → Bool → AliasKey → ℕ → Subscriber F → Subscriber F
publish_when false key now s = s
publish_when true key now s = record s {
  last_rebirth_request = put key now s.last_rebirth_request;
  published = record { topic = rebirth_topic key; key = key; at = now } ∷ s.published;
}

-- the throttle of a key has run out
abbrev pub may_publish : {F : Type 0} → Rebirths → AliasKey → ℕ → Subscriber F → Bool
may_publish settings key now s =
    if settings.auto_request_rebirth
    then leb (value_or 0 (get key s.last_rebirth_request) + settings.rebirth_throttle_seconds) now
    else false

-- `_may_request_rebirth`
unfoldable pub may_request_rebirth :
    {F : Type 0} → Rebirths → AliasKey → ℕ → Subscriber F → Subscriber F
unfolding rebirth_topic
may_request_rebirth settings key now s = publish_when (may_publish settings key now s) key now s

abbrev pub made_when_absent :
    {F : Type 0}
    → Option (AliasMap F)
    → AliasKey
    → Dict AliasKey (AliasMap F)
    → Dict AliasKey (AliasMap F)
made_when_absent none key maps = put key [] maps
made_when_absent (some _) key maps = maps

-- `_ensure_map`: the map of the key, which is made when it is not there
unfoldable pub ensure_map :
    {F : Type 0} → AliasKey → Dict AliasKey (AliasMap F) → Dict AliasKey (AliasMap F)
ensure_map key maps = made_when_absent (get key maps) key maps

abbrev pub info_of : {F : Type 0} → Metric F → AliasInfo F
info_of m = record { name = m.name; datatype = m.datatype; props = props_to_dict m.properties }

-- the loop of `_ingest_birth`, on the map of the key
unfoldable pub ingest_metrics : {F : Type 0} → List (Metric F) → AliasMap F → AliasMap F
unfolding props_to_dict
ingest_metrics [] alias_map = alias_map
ingest_metrics (m ∷ ms) alias_map =
    ingest_metrics ms
      (if m.alias == 0 || is_empty m.name then alias_map else put m.alias (info_of m) alias_map)

-- `_ingest_birth`
unfoldable pub ingest_birth :
    {F : Type 0} → AliasKey → List (Metric F) → Subscriber F → Subscriber F
unfolding ensure_map ingest_metrics
ingest_birth key metrics s =
    let maps = ensure_map key s.alias_maps in
    record s { alias_maps = put key (ingest_metrics metrics (value_or [] (get key maps))) maps }

abbrev pub known_in : {F : Type 0} → ℕ → Option (AliasMap F) → Option (AliasInfo F)
known_in alias none = none
known_in alias (some m) = get alias m

-- the map of a key, and the alias in it
unfoldable pub known : {F : Type 0} → AliasKey → ℕ → Subscriber F → Option (AliasInfo F)
known key alias s = known_in alias (get key s.alias_maps)

-- the key of the edge node itself
abbrev pub node_key : AliasKey → AliasKey
node_key key = record key { device = none }

abbrev pub found_or_request :
    {F : Type 0}
    → Rebirths
    → AliasKey
    → ℕ
    → ℕ
    → Option (AliasInfo F)
    → Option (AliasInfo F)
    → Subscriber F
    → String × Subscriber F
found_or_request settings key alias now (some info) at_node s = (info.name, s)
found_or_request settings key alias now none (some info) s = (info.name, s)
found_or_request settings key alias now none none s =
    ("alias:" <> str alias, may_request_rebirth settings key now s)

-- `_resolve_name`
unfoldable pub resolve_name :
    {F : Type 0} → Rebirths → AliasKey → Metric F → ℕ → Subscriber F → String × Subscriber F
unfolding known may_request_rebirth str
resolve_name settings key m now s =
    if is_empty m.name
    then if m.alias == 0
      then ("", s)
      else found_or_request settings key m.alias now (known key m.alias s)
          (known (node_key key) m.alias s) s
    else (m.name, s)
