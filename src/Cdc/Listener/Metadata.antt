-- ===== src/Cdc/Listener/Metadata.antt =====
-- What the listener looks up: the change records of the decoder (cdc/logical_replication.py) and the
-- identity and the latest version of a metric (cdc/service.py).
use dbirth.Base.{ℕ, String, Bool, Option, List}
use dbirth.Base.Dict.{Dict}

pub record ChangeColumn (C : Type 0) : Type 0 where
  pub name : String
  pub value : C
  pub type_oid : ℕ
  pub flags : Dict String Bool

-- `old_columns` is empty where the source has None.
pub record ChangeRecord (C : Type 0) : Type 0 where
  pub kind : String
  pub relation : String
  pub columns : List (ChangeColumn C)
  pub old_columns : List (ChangeColumn C)
  pub lsn : ℕ
  pub commit_timestamp : ℕ

pub record MetricIdentity : Type 0 where
  pub metric_id : ℕ
  pub uns_path : String
  pub canary_id : String
  pub device_id : Option ℕ

pub record MetricVersionSnapshot (V : Type 0) : Type 0 where
  pub metric_id : ℕ
  pub version : ℕ
  pub actor : String
  pub changed_at : ℕ
  pub diff : Dict String V
  pub previous_version : Option ℕ

-- `MetricMetadataProvider`; the outer none is a raise.
pub record Provider (V : Type 0) : Type 0 where
  pub get_identity : ℕ → Option (Option MetricIdentity)
  pub get_version_snapshot : ℕ → Option (Option (MetricVersionSnapshot V))
