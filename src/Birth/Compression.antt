-- ===== src/Birth/Compression.antt =====
-- `sparkplug_b_utils.py`: payloads that wrap a compressed payload. Parsing of a message and both ways
-- of decompression are parameters; none is an exception.
use text.Mathlib.Text.{◌==◌ as str_eq}
use dbirth.Base.{
  ℕ, String, Bool, true, false, ◌&&◌, ◌||◌, not, Option, none, some, List, [], ◌∷◌, if◌then◌else◌,
}
use dbirth.Base.Options.{◌>>=◌}
use dbirth.Birth.Payload.{Metric, MetricValue, scalar_value, string}

-- `Payload`, as far as it is read
pub record Payload (F : Type 0) : Type 0 where
  pub metrics : List (Metric F)
  pub uuid : String
  pub body : List ℕ

-- `Payload.ParseFromString`, `gzip.decompress` and `zlib.decompress`; a `gzip.decompress` that raises
-- raises an `OSError`
pub record Codecs (F : Type 0) : Type 0 where
  pub parse : List ℕ → Option (Payload F)
  pub gunzip : List ℕ → Option (List ℕ)
  pub inflate : List ℕ → Option (List ℕ)

abbrev is_filled : List ℕ → Bool
is_filled [] = false
is_filled (b ∷ bs) = true

abbrev or_inflated : Option (List ℕ) → Option (List ℕ) → Option (List ℕ)
or_inflated none rest = rest
or_inflated (some bytes) rest = some bytes

abbrev is_gzip : Option String → Bool
is_gzip none = false
is_gzip (some s) = str_eq s "GZIP"

module _ {F : Type 0} where
  abbrev algorithm_or : Bool → MetricValue F → Option String → Option String
  algorithm_or true (scalar_value (string s)) rest = some s
  algorithm_or named value rest = rest

  -- `_metric_algorithm_value`
  unfoldable pub metric_algorithm_value : List (Metric F) → Option String
  metric_algorithm_value [] = none
  metric_algorithm_value (m ∷ ms) =
      algorithm_or (str_eq m.name "algorithm" && not m.is_null) m.value (metric_algorithm_value ms)

  -- `is_compressed_wrapper`
  unfoldable pub is_compressed_wrapper : Payload F → Bool
  unfolding metric_algorithm_value
  is_compressed_wrapper p =
      (str_eq p.uuid "SPBV1.0_COMPRESSED" && is_filled p.body)
      || (is_gzip (metric_algorithm_value p.metrics) && is_filled p.body)

  -- `unwrap_if_compressed`; a wrapper has a body, so that the `CompressionError` is never raised
  unfoldable pub unwrap_if_compressed : Codecs F → Payload F → Option (Payload F)
  unfolding is_compressed_wrapper
  unwrap_if_compressed c p =
      if is_compressed_wrapper p
      then or_inflated (c.gunzip p.body) (c.inflate p.body) >>= c.parse
      else some p

  -- `decode_sparkplug_payload`
  unfoldable pub decode_sparkplug_payload : Codecs F → List ℕ → Option (Payload F)
  unfolding unwrap_if_compressed
  decode_sparkplug_payload c blob = c.parse blob >>= unwrap_if_compressed c
