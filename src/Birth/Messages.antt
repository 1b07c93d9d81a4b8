-- ===== src/Birth/Messages.antt =====
-- `on_message` and `on_connect`. The parsers of a payload, dumping of a frame and the time
-- of each resolution are parameters; the state has the subscriber, the database, the generator of tags
-- and the lines that were appended to files.
pub mod Sequences
pub mod Numbers
use Prim.Native.String
use text.Mathlib.Text.{◌==◌ as str_eq}
use dbirth.Base.{
  ℕ, ◌+◌, String, Bool, true, false, ◌&&◌, Option, none, some, List, [], ◌∷◌, ◌++◌, ◌==◌,
  if◌then◌else◌,
}
use dbirth.Base.Options.{option_map}
use dbirth.Base.Result.{Result, ok, err}
use dbirth.Base.Strings.{Unicode, is_empty, split, replace, ◌<>◌}
use dbirth.Base.Strings.Trim.{is_char, starts}
use dbirth.Birth.AliasCache.{AliasKey}
use dbirth.Birth.Aliases.{Rebirths, Subscriber, ingest_birth, resolve_name}
use dbirth.Birth.Compression.{Codecs, decode_sparkplug_payload}
use dbirth.Birth.Frames.{number, FrameMetric}
use dbirth.Birth.Payload.{Object, Metric, metric_value, props_to_dict}
use dbirth.Birth.Topics.{TopicParts, topic_parts, key_of, device_for_alias}
use dbirth.Birth.Persistence.{Repository, persist_frame}
use dbirth.Uns.{PathError, normalize_device_path, normalize_metric_path}
use dbirth.Uns.CanaryId.{IdError, CanaryIdGenerator, metric_path_to_canary_id}

-- what of the settings counts for messages
pub record Settings : Type 0 where
  pub rebirths : Rebirths
  pub db_mode : String
  pub write_jsonl : Bool
  pub jsonl_file : String → String
  pub topic_all : String
  pub topic_nbirth_all : String
  pub topic_dbirth_all : String

-- `frame`
pub record Frame (F : Type 0) : Type 0 where
  pub topic : String
  pub device_uns_path : Option String
  pub metrics : List (FrameMetric F)

-- the parameters of a message: the modules that are called, and what the world answers
pub record World (S F : Type 0) : Type 1 where
  pub unicode : Unicode
  pub str : Object F → String
  pub codecs : Codecs F
  pub dumps : Frame F → String
  pub writable : String → Bool
  pub repository : Option (Repository S F)

pub record Service (S F : Type 0) : Type 0 where
  pub subscriber : Subscriber F
  pub database : S
  pub generator : CanaryIdGenerator
  pub lines : List (String × String)

-- the path of a call that may raise a `ValueError`
abbrev pub or_none : {E : Type 0} → Result E String → Option String
or_none (ok path) = some path
or_none (err e) = none

module _ {F : Type 0} where
  abbrev pub frame_metric : String → Metric F → FrameMetric F
  frame_metric name m = record {
    name = name;
    value = metric_value m.value;
    datatype = number m.datatype;
    ts = m.timestamp;
    props = props_to_dict m.properties;
    uns_path = none;
    canary_id = none;
  }

  -- the first loop over `payload.metrics`; `clock i` is the time at the metric in place `i`
  unfoldable pub resolve_all :
      Rebirths
      → AliasKey
      → (ℕ → ℕ)
      → ℕ
      → List (Metric F)
      → Subscriber F
      → List (FrameMetric F) × Subscriber F
  unfolding resolve_name metric_value props_to_dict
  resolve_all settings key clock i [] s = ([], s)
  resolve_all settings key clock i (m ∷ ms) s =
      let one = resolve_name settings key m (clock i) s in
      let rest = resolve_all settings key clock (i + 1) ms one.1 in
      (frame_metric one.0 m ∷ rest.0, rest.1)

  abbrev pub with_tag :
      FrameMetric F
      → String
      → Result IdError String × CanaryIdGenerator
      → FrameMetric F × CanaryIdGenerator
  with_tag m path (ok tag, g) = (record m { uns_path = some path; canary_id = some tag }, g)
  with_tag m path (err e, g) = (record m { uns_path = some path }, g)

  abbrev pub with_path :
      Unicode
      → FrameMetric F
      → Result PathError String
      → CanaryIdGenerator
      → FrameMetric F × CanaryIdGenerator
  with_path u m (err e) g = (m, g)
  with_path u m (ok path) g = with_tag m path (metric_path_to_canary_id u path g)

  -- the second loop: the path and the tag of every metric
  unfoldable pub add_paths :
      Unicode
      → TopicParts
      → List (FrameMetric F)
      → CanaryIdGenerator
      → List (FrameMetric F) × CanaryIdGenerator
  unfolding normalize_metric_path metric_path_to_canary_id
  add_paths u parts [] g = ([], g)
  add_paths u parts (m ∷ ms) g =
      let one =
        with_path u m (normalize_metric_path u parts.group parts.edge_node parts.device m.name none)
          g in
      let rest = add_paths u parts ms one.1 in (one.0 ∷ rest.0, rest.1)

  -- the births: of the edge node, or of the device
  unfoldable pub ingest : TopicParts → List (Metric F) → Subscriber F → Subscriber F
  unfolding ingest_birth
  ingest parts metrics s =
      if str_eq parts.msg_type "NBIRTH"
      then ingest_birth (key_of parts none) metrics s
      else if str_eq parts.msg_type "DBIRTH"
      then ingest_birth (key_of parts parts.device) metrics s
      else s

module _ {S F : Type 0} (settings : Settings) (w : World S F) where
  -- `_write_jsonl`; a file that cannot be written is left
  unfoldable pub write_jsonl : String → Frame F → List (String × String) → List (String × String)
  unfolding replace
  write_jsonl topic frame lines =
      let path = settings.jsonl_file (replace b'/' "_" topic) in
      if settings.write_jsonl && w.writable path
      then lines ++ (path, w.dumps frame <> "\n") ∷ []
      else lines

  abbrev pub handle_metrics :
      String → TopicParts → (ℕ → ℕ) → List (Metric F) → Service S F → Service S F
  handle_metrics topic parts clock metrics s =
      let resolved =
        resolve_all settings.rebirths (key_of parts (device_for_alias parts)) clock 0 metrics
          (ingest parts metrics s.subscriber) in
      let paths = add_paths w.unicode parts resolved.0 s.generator in
      let device_uns_path =
        or_none (normalize_device_path w.unicode parts.group parts.edge_node parts.device none) in
      record {
        subscriber = resolved.1;
        database =
            persist_frame w.repository w.unicode w.str settings.db_mode parts.group parts.edge_node
              parts.device device_uns_path paths.0 s.database;
        generator = paths.1;
        lines =
            write_jsonl topic
              (record { topic = topic; device_uns_path = device_uns_path; metrics = paths.0 })
              s.lines;
      }

  abbrev pub handle_decoded :
      String → TopicParts → (ℕ → ℕ) → Option (List (Metric F)) → Service S F → Service S F
  handle_decoded topic parts clock none s = s
  handle_decoded topic parts clock (some metrics) s = handle_metrics topic parts clock metrics s

  -- `payload.metrics` of the payload that is decoded; none is an exception
  unfoldable pub metrics_of : List ℕ → Option (List (Metric F))
  unfolding decode_sparkplug_payload
  metrics_of payload = option_map (λ p. p.metrics) (decode_sparkplug_payload w.codecs payload)

  abbrev pub handle_parts :
      String → List ℕ → (ℕ → ℕ) → Option TopicParts → Service S F → Service S F
  handle_parts topic payload clock none s = s
  handle_parts topic payload clock (some parts) s =
      handle_decoded topic parts clock (metrics_of payload) s

  -- `on_message`
  unfoldable pub on_message : String → List ℕ → (ℕ → ℕ) → Service S F → Service S F
  unfolding topic_parts metrics_of resolve_all add_paths ingest write_jsonl persist_frame
      normalize_device_path
  on_message topic payload clock s =
      handle_parts topic payload clock (topic_parts w.unicode topic) s

-- `on_connect`: what is subscribed to
unfoldable pub on_connect : Settings → ℕ → List (String × ℕ)
on_connect settings rc =
    if rc == 0
    then (settings.topic_all, 0)
      ∷ (settings.topic_nbirth_all, 0)
      ∷ (settings.topic_dbirth_all, 0)
      ∷ []
    else []
