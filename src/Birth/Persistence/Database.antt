-- ===== src/Birth/Persistence/Database.antt =====
-- The repository of the service filled with the upserts of `MetadataRepository`, over the three tables.
use dbirth.Base.{ℕ, Bool, ◌≡◌, refl, Option, some, List, map}
use dbirth.Base.Dict.{Dict, keys, contains, nat_key}
use dbirth.Base.Result.{Result, ok, err}
use dbirth.Birth.Frames.{PropertyPayload}
use dbirth.Birth.Messages.Numbers.{DeviceUpserts, done, upsert_then, handle_all-DeviceUpserts}
use dbirth.Birth.Messages.Sequences.{Message, handle_all}
use dbirth.Birth.Messages.{Settings, World, Service}
use dbirth.Birth.Payload.{ℤ, Object}
use dbirth.Birth.Persistence.{Repository}
use dbirth.Db.Devices.{Device, upsert_device}
use dbirth.Db.Metrics.{Metric}
use dbirth.Db.MetricsBulk.{upsert_metrics_bulk}
use dbirth.Db.Properties.{Conversions}
use dbirth.Db.PropertyTable.{
  PropertyPayload as RowPayload, PropertyKey, Row, upsert_metric_properties_bulk,
}
use dbirth.Db.Table.{Table}
use dbirth.Db.Upserts.{Status, RepositoryError, upsert_failed}

pub record Tables (F : Type 0) : Type 0 where
  pub devices : Table Device
  pub metrics : Table Metric
  pub properties : Dict PropertyKey (Row ℤ F)

-- every exception of a bulk upsert as the service sees it
abbrev as_error : {E A : Type 0} → Result E A → Result RepositoryError A
as_error (ok a) = ok a
as_error (err e) = err upsert_failed

-- `device_result.record.get("device_id")`
abbrev device_id_of :
    Result RepositoryError (Status × ℕ × Device) → Result RepositoryError (Option ℕ)
device_id_of (ok (status, id, row)) = ok (some id)
device_id_of (err e) = err e

abbrev row_payload : {F : Type 0} → PropertyPayload F → RowPayload (Object F)
row_payload p = record { metric_id = p.metric_id; key = p.key; type = p.type; value = some p.value }

module _ {F : Type 0} (c : Conversions (Object F) ℤ F) (equal : Row ℤ F → Row ℤ F → Bool) where
  -- the sizes of the batches are the defaults of the two calls
  abbrev pub metadata_repository : Repository (Tables F) F
  metadata_repository = record {
    upsert_device = λ payload s.
        let r = upsert_device payload s.devices in (device_id_of r.0, record s { devices = r.1 });
    upsert_metrics_bulk = λ rows s.
        let r = upsert_metrics_bulk (keys s.devices.rows) 1000 rows s.metrics in
        (as_error r.0, record s { metrics = r.1 });
    upsert_metric_properties_bulk = λ payloads s.
        let r =
          upsert_metric_properties_bulk c equal (λ id. contains id (keys s.metrics.rows)) 10000
            (map row_payload payloads) s.properties in
        (as_error r.0, record s { properties = r.1 });
  }

  same_tables :
      {s t : Tables F}
      → DeviceUpserts metadata_repository s t
      → (t.metrics ≡ s.metrics) × (t.properties ≡ s.properties)
  same_tables done = (refl, refl)
  same_tables (upsert_then payload h) = let rest = same_tables h in (rest.0, rest.1)

-- Over every sequence of messages the tables of metrics and of their properties stay as they were.
pub handle_all_tables :
    {F : Type 0} (settings : Settings) (w : World (Tables F) F) (c : Conversions (Object F) ℤ F)
    (equal : Row ℤ F → Row ℤ F → Bool)
    → w.repository ≡ some (metadata_repository c equal)
    → (ms : List Message) (s : Service (Tables F) F)
    → ((handle_all settings w ms s).database.metrics ≡ s.database.metrics)
      × ((handle_all settings w ms s).database.properties ≡ s.database.properties)
handle_all_tables settings w c equal given ms s =
    same_tables c equal
      (handle_all-DeviceUpserts settings w (metadata_repository c equal) given ms s)
