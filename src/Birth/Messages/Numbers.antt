-- ===== src/Birth/Messages/Numbers.antt =====
-- The frames of messages have numbers for datatypes, and nothing of their metrics is persisted.
use mathlib.Core.Path.{subst}
use dbirth.Base.{ℕ, ◌+◌, String, ◌≡◌, inl, inr, refl, sym, Option, none, some, List, [], ◌∷◌, All}
use dbirth.Base.Result.{Result, ok, err}
use dbirth.Birth.AliasCache.{AliasKey}
use dbirth.Birth.Aliases.{Rebirths, Subscriber, resolve_name}
use dbirth.Birth.Frames.{FrameMetric, device_payload}
use dbirth.Birth.Messages.{
  Settings, World, Service, resolve_all, add_paths, with_path, with_tag, ingest, handle_metrics,
  handle_decoded, handle_parts, metrics_of, on_message, or_none,
}
use dbirth.Birth.Payload.{Metric}
use dbirth.Birth.Persistence.Datatypes.{Numbered, OnlyDevice, persist_frame_numbered}
use dbirth.Birth.Persistence.{Repository, persist_frame}
use dbirth.Birth.Topics.{TopicParts, topic_parts, key_of, device_for_alias}
use dbirth.Db.Devices.{Device}
use dbirth.Uns.CanaryId.{IdError, CanaryIdGenerator, metric_path_to_canary_id}
use dbirth.Uns.{PathError, normalize_device_path, normalize_metric_path}
use dbirth.Birth.Messages.Sequences.{Message, handle_all}
use dbirth.Base.Strings.{Unicode}

module _ {F : Type 0} where
  resolve_all-Numbered :
      (settings : Rebirths) (key : AliasKey) (clock : ℕ → ℕ) (i : ℕ) (ms : List (Metric F))
      (s : Subscriber F)
      → All Numbered (resolve_all settings key clock i ms s).0
  unfolding resolve_all
  resolve_all-Numbered settings key clock i [] s = tt
  resolve_all-Numbered settings key clock i (m ∷ ms) s = (
    (m.datatype, refl),
    resolve_all-Numbered settings key clock (i + 1) ms (resolve_name settings key m (clock i) s).1,
  )

module _ {F : Type 0} (w : Unicode) (parts : TopicParts) where
  tag-Numbered :
      (m : FrameMetric F) (path : String) (r : Result IdError String × CanaryIdGenerator)
      → Numbered m
      → Numbered (with_tag m path r).0
  tag-Numbered m path (ok tag, g) h = h
  tag-Numbered m path (err e, g) h = h

  path-Numbered :
      (m : FrameMetric F) (r : Result PathError String) (g : CanaryIdGenerator)
      → Numbered m
      → Numbered (with_path w m r g).0
  path-Numbered m (err e) g h = h
  path-Numbered m (ok path) g h = tag-Numbered m path (metric_path_to_canary_id w path g) h

  add_paths-Numbered :
      (ms : List (FrameMetric F)) (g : CanaryIdGenerator)
      → All Numbered ms
      → All Numbered (add_paths w parts ms g).0
  unfolding add_paths
  add_paths-Numbered [] g h = tt
  add_paths-Numbered (m ∷ ms) g h =
      let path = normalize_metric_path w parts.group parts.edge_node parts.device m.name none in
      (path-Numbered m path g h.0, add_paths-Numbered ms (with_path w m path g).1 h.1)

-- the states that upserts of devices lead to
pub data DeviceUpserts {S F : Type 0} (repository : Repository S F) : S → S → Type 0 where
  done : {s : S} → DeviceUpserts repository s s
  upsert_then :
      {s t : S} (payload : Device)
      → DeviceUpserts repository (repository.upsert_device payload s).1 t
      → DeviceUpserts repository s t

module _ {S F : Type 0} (repository : Repository S F) where
  followed :
      {s t v : S}
      → DeviceUpserts repository s t
      → DeviceUpserts repository t v
      → DeviceUpserts repository s v
  followed done k = k
  followed (upsert_then payload h) k = upsert_then payload (followed h k)

  from_only :
      (payload : Option Device) (s t : S)
      → OnlyDevice repository payload s t
      → DeviceUpserts repository s t
  from_only none s t h = subst (DeviceUpserts repository s) (sym h) done
  from_only (some payload) s t (inl h) = subst (DeviceUpserts repository s) (sym h) done
  from_only (some payload) s t (inr h) =
      upsert_then payload
        (subst (DeviceUpserts repository (repository.upsert_device payload s).1) (sym h) done)

module _ {S F : Type 0} (settings : Settings) (w : World S F) (repository : Repository S F)
    (given : w.repository ≡ some repository) where
  metrics-DeviceUpserts :
      (topic : String) (parts : TopicParts) (clock : ℕ → ℕ) (metrics : List (Metric F))
      (s : Service S F)
      → DeviceUpserts repository s.database
          (handle_metrics settings w topic parts clock metrics s).database
  metrics-DeviceUpserts topic parts clock metrics s =
      let resolved =
        resolve_all settings.rebirths (key_of parts (device_for_alias parts)) clock 0 metrics
          (ingest parts metrics s.subscriber) in
      let paths = add_paths w.unicode parts resolved.0 s.generator in
      let path =
        or_none (normalize_device_path w.unicode parts.group parts.edge_node parts.device none) in
      let numbered = add_paths-Numbered w.unicode parts resolved.0 s.generator (
        resolve_all-Numbered settings.rebirths (key_of parts (device_for_alias parts)) clock 0
          metrics (ingest parts metrics s.subscriber)) in
      let payload =
        device_payload w.unicode w.str parts.group parts.edge_node parts.device path paths.0 in
      let persisted : Option (Repository S F) → S = λ r.
        persist_frame r w.unicode w.str settings.db_mode parts.group parts.edge_node parts.device
          path paths.0 s.database in
      subst (λ r. DeviceUpserts repository s.database (persisted r)) (sym given)
        (from_only repository payload s.database (persisted (some repository)) (
          persist_frame_numbered repository w.unicode w.str settings.db_mode parts.group
            parts.edge_node parts.device path paths.0 s.database numbered))

  decoded-DeviceUpserts :
      (topic : String) (parts : TopicParts) (clock : ℕ → ℕ) (metrics : Option (List (Metric F)))
      (s : Service S F)
      → DeviceUpserts repository s.database
          (handle_decoded settings w topic parts clock metrics s).database
  decoded-DeviceUpserts topic parts clock none s = done
  decoded-DeviceUpserts topic parts clock (some metrics) s =
      metrics-DeviceUpserts topic parts clock metrics s

  parts-DeviceUpserts :
      (topic : String) (payload : List ℕ) (clock : ℕ → ℕ) (parts : Option TopicParts)
      (s : Service S F)
      → DeviceUpserts repository s.database
          (handle_parts settings w topic payload clock parts s).database
  parts-DeviceUpserts topic payload clock none s = done
  parts-DeviceUpserts topic payload clock (some parts) s =
      decoded-DeviceUpserts topic parts clock (metrics_of settings w payload) s

-- Over every sequence of messages the service persists devices only: the database comes from the one
-- before by upserts of devices, and no metric and no property is stored, since every frame of a
-- message has numbers for datatypes.
pub handle_all-DeviceUpserts :
    {S F : Type 0} (settings : Settings) (w : World S F) (repository : Repository S F)
    → w.repository ≡ some repository
    → (ms : List Message) (s : Service S F)
    → DeviceUpserts repository s.database (handle_all settings w ms s).database
unfolding handle_all on_message
handle_all-DeviceUpserts settings w repository given [] s = done
handle_all-DeviceUpserts settings w repository given (m ∷ ms) s =
    followed repository
      (parts-DeviceUpserts settings w repository given m.topic m.payload m.clock
        (topic_parts w.unicode m.topic) s)
      (handle_all-DeviceUpserts settings w repository given ms
        (on_message settings w m.topic m.payload m.clock s))
