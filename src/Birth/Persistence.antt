-- ===== src/Birth/Persistence.antt =====
-- `_persist_frame`: one transaction of three calls of the repository. The repository is an interface
-- of the calls that are made, each of which may fail.
pub mod Datatypes
pub mod Database
mod Tests
use text.Mathlib.Text.{◌==◌ as str_eq}
use dbirth.Base.{ℕ, String, Option, none, some, List, [], ◌∷◌, ◌==◌, if◌then◌else◌}
use dbirth.Base.Dict.{Dict}
use dbirth.Base.Result.{Result, ok, err}
use dbirth.Base.Strings.{Unicode}
use dbirth.Birth.Frames.{
  FrameMetric, PropertyPayload, metric_payloads, property_payloads, device_payload,
}
use dbirth.Birth.Payload.{Object}
use dbirth.Db.Devices.{Device}
use dbirth.Db.Metrics.{Metric as MetricRow}
use dbirth.Db.Upserts.{RepositoryError}

pub record Repository (S F : Type 0) : Type 1 where
  pub upsert_device : Device → S → Result RepositoryError (Option ℕ) × S
  pub upsert_metrics_bulk : List MetricRow → S → Result RepositoryError (Dict String ℕ) × S
  pub upsert_metric_properties_bulk : List (PropertyPayload F) → S → Result RepositoryError ℕ × S

module _ {S F : Type 0} (repository : Repository S F) (before : S) where
  -- the transaction is rolled back on an error
  abbrev pub commit : {A : Type 0} → Result RepositoryError A × S → S
  commit (ok a, s) = s
  commit (err e, s) = before

  abbrev pub store_properties : List (PropertyPayload F) → S → S
  store_properties [] s = s
  store_properties (p ∷ ps) s = commit (repository.upsert_metric_properties_bulk (p ∷ ps) s)

  abbrev pub after_metrics : List (FrameMetric F) → Result RepositoryError (Dict String ℕ) × S → S
  after_metrics metrics (err e, s) = before
  after_metrics metrics (ok ids, s) = store_properties (property_payloads ids metrics) s

  abbrev pub store_metrics : List (FrameMetric F) → List MetricRow → S → S
  store_metrics metrics [] s = s
  store_metrics metrics (p ∷ ps) s =
      after_metrics metrics (repository.upsert_metrics_bulk (p ∷ ps) s)

  abbrev pub after_device : List (FrameMetric F) → Result RepositoryError (Option ℕ) × S → S
  after_device metrics (err e, s) = before
  after_device metrics (ok none, s) = s
  after_device metrics (ok (some id), s) =
      if id == 0 then s else store_metrics metrics (metric_payloads id metrics) s

abbrev pub persist_device :
    {S F : Type 0} → Repository S F → List (FrameMetric F) → Option Device → S → S
persist_device repository metrics none s = s
persist_device repository metrics (some payload) s =
    after_device repository s metrics (repository.upsert_device payload s)

-- `_persist_frame`; the guard is `self.repository is None or self.settings.db_mode != "local"`
unfoldable pub persist_frame :
    {S F : Type 0}
    → Option (Repository S F)
    → Unicode
    → (Object F → String)
    → String
    → String
    → String
    → Option String
    → Option String
    → List (FrameMetric F)
    → S
    → S
unfolding device_payload metric_payloads property_payloads
persist_frame none u str db_mode group edge_node device device_uns_path metrics s = s
persist_frame (some repository) u str db_mode group edge_node device device_uns_path metrics s =
    if str_eq db_mode "local"
    then persist_device repository metrics
        (device_payload u str group edge_node device device_uns_path metrics) s
    else s
