-- ===== src/Birth/Persistence/Datatypes.antt =====
-- A frame of the service has a number under "datatype", and a metric is only persisted with a name
-- there.
use text.Mathlib.Text.{◌==◌ as str_eq}
use dbirth.Base.{
  ℕ, String, Bool, true, false, ◌≡◌, ◌⊎◌, inl, inr, refl, ap, ◌∙◌, Option, none, some, List, [],
  ◌∷◌, ◌==◌, if◌then◌else◌, All,
}
use dbirth.Base.Result.{Result, ok, err}
use dbirth.Base.Strings.{Unicode}
use dbirth.Birth.Frames.{
  number, FrameMetric, metric_datatype, with_row, metric_payloads, device_payload,
}
use dbirth.Birth.Payload.{Object}
use dbirth.Birth.Persistence.{
  Repository, store_metrics, after_device, persist_device, persist_frame,
}
use dbirth.Db.Devices.{Device}
use dbirth.Db.Metrics.{Metric as MetricRow}
use dbirth.Db.Upserts.{RepositoryError}

-- the frame has a number under "datatype", as every frame of `on_message` has
abbrev pub Numbered : {F : Type 0} → FrameMetric F → Type 0
Numbered m = (n : ℕ) × (m.datatype ≡ number n)

without_datatype :
    (id : ℕ) (name : String) (path : Option String) (rest : List MetricRow)
    → with_row id name path none rest ≡ rest
without_datatype id name none rest = refl
without_datatype id name (some path) rest = refl

module _ {F : Type 0} where
  no_payloads :
      (id : ℕ) (metrics : List (FrameMetric F))
      → All Numbered metrics
      → metric_payloads id metrics ≡ []
  unfolding metric_payloads metric_datatype
  no_payloads id [] h = refl
  no_payloads id (m ∷ ms) h =
      ap (λ d. with_row id m.name m.uns_path (metric_datatype d) (metric_payloads id ms)) h.0.1
      ∙ without_datatype id m.name m.uns_path (metric_payloads id ms)
      ∙ no_payloads id ms h.1

module _ {S F : Type 0} (repository : Repository S F) where
  -- The state is as it was, or as the device's row leaves it.
  abbrev pub OnlyDevice : Option Device → S → S → Type 0
  OnlyDevice none s t = t ≡ s
  OnlyDevice (some payload) s t = (t ≡ s) ⊎ (t ≡ (repository.upsert_device payload s).1)

  nothing_more :
      (before s : S) (metrics : List (FrameMetric F)) (id : ℕ) (b : Bool)
      → All Numbered metrics
      → (if b then s else store_metrics repository before metrics (metric_payloads id metrics) s)
        ≡ s
  nothing_more before s metrics id true h = refl
  nothing_more before s metrics id false h =
      ap (λ ps. store_metrics repository before metrics ps s) (no_payloads id metrics h)

  after_device_only :
      (before : S) (metrics : List (FrameMetric F)) (r : Result RepositoryError (Option ℕ) × S)
      → All Numbered metrics
      → (after_device repository before metrics r ≡ before)
        ⊎ (after_device repository before metrics r ≡ r.1)
  after_device_only before metrics (err e, s) h = inl refl
  after_device_only before metrics (ok none, s) h = inr refl
  after_device_only before metrics (ok (some id), s) h =
      inr (nothing_more before s metrics id (id == 0) h)

  device_only :
      (metrics : List (FrameMetric F)) (payload : Option Device) (s : S)
      → All Numbered metrics
      → OnlyDevice payload s (persist_device repository metrics payload s)
  device_only metrics none s h = refl
  device_only metrics (some payload) s h =
      after_device_only s metrics (repository.upsert_device payload s) h

  skipped : (payload : Option Device) (s : S) → OnlyDevice payload s s
  skipped none s = refl
  skipped (some payload) s = inl refl

  guarded :
      (b : Bool) (metrics : List (FrameMetric F)) (payload : Option Device) (s : S)
      → All Numbered metrics
      → OnlyDevice payload s (if b then persist_device repository metrics payload s else s)
  guarded true metrics payload s h = device_only metrics payload s h
  guarded false metrics payload s h = skipped payload s

-- Of a frame with numbers for datatypes no metric and no property is persisted, whatever the
-- repository does: the state afterwards is the one before, or what the upsert of the device leaves.
pub persist_frame_numbered :
    {S F : Type 0} (repository : Repository S F) (u : Unicode) (str : Object F → String)
    (db_mode group edge_node : String) (device device_uns_path : Option String)
    (metrics : List (FrameMetric F)) (s : S)
    → All Numbered metrics
    → OnlyDevice repository
        (device_payload u str group edge_node device device_uns_path metrics)
        s
        (persist_frame
          (some repository)
          u
          str
          db_mode
          group
          edge_node
          device
          device_uns_path
          metrics
          s)
unfolding persist_frame
persist_frame_numbered repository u str db_mode group edge_node device device_uns_path metrics s h =
    guarded repository (str_eq db_mode "local") metrics
      (device_payload u str group edge_node device device_uns_path metrics) s h
