-- ===== src/Uns/Tests.antt =====
-- Runs of the path normaliser and of the generator, and the claims at concrete inputs.
use dbirth.Base.{
  ℕ, String, Bool, true, false, ◌||◌, ◌&&◌, ◌≡◌, refl, arith, none, some, [], ◌∷◌, leb,
}
use dbirth.Base.Dict.{contains, string_key, String-discrete, get, put}
use dbirth.Base.Result.{ok, err}
use dbirth.Base.Strings.{Unicode, is_space, split, join, strip}
use dbirth.Uns.{
  normalise_segment, normalize_device_path, normalize_metric_path, group_required,
  normalised_segments, normalised, split_values, split_value, split_text, split_texts, filled,
  clean, scan, collapse,
}
use dbirth.Uns.Clean.{IsUnicode, normalise_segment-idempotent}
use dbirth.Uns.Paths.{Below, normalize_metric_path-Below}
use dbirth.Uns.CanaryId.Agreement.{Agrees, metric_path_to_canary_id-Agrees}
use dbirth.Uns.CanaryId.Collisions.{generate_all_distinct}
use dbirth.Uns.CanaryId.{
  open_generator, generate_all, generate, metric_path_to_canary_id, tag_of, tag_of_segments,
  path_segments, trimmed_segments, escaped_texts, count_escapes, escape_segment, is_allowed_char,
  hex, hex_digits, record_generation,
}

abbrev alnum : ℕ → Bool
alnum c = (leb b'0' c && leb c b'9') || ((leb b'A' c && leb c b'Z') || (leb b'a' c && leb c b'z'))

abbrev ascii : Unicode
ascii = record { is_alnum = alnum; lower = λ s. s; upper = λ s. s; nfc = λ s. s }

alnum_space : (c : ℕ) → alnum c ≡ true → is_space c ≡ false
unfolding is_space
alnum_space c h = ground (arith, h)

ascii-IsUnicode : IsUnicode ascii
ascii-IsUnicode = record { no_space = alnum_space; no_slash = refl }

segment_run : normalise_segment ascii " Zone  1__(a)-- " ≡ "Zone 1_a"
unfolding normalise_segment clean scan collapse strip is_space
segment_run = refl

metric_run :
    normalize_metric_path ascii "Secil" "edge 1" (some "kiln") "Temp/Zone#1" none
    ≡ ok "Secil/edge 1/kiln/Temp/Zone_1"
unfolding normalize_metric_path normalised_segments normalised split_values split_value split_text
    split_texts filled split join normalise_segment clean scan collapse strip is_space
metric_run = refl

device_run : normalize_device_path ascii "" "edge 1" none none ≡ err group_required
unfolding normalize_device_path
device_run = refl

normalise_segment-idempotent_run :
    normalise_segment ascii (normalise_segment ascii "a  b__") ≡ normalise_segment ascii "a  b__"
normalise_segment-idempotent_run = normalise_segment-idempotent ascii ascii-IsUnicode "a  b__" refl

normalize_metric_path-Below_example :
    Below ascii
      (normalize_device_path ascii "Secil" "edge 1" (some "kiln") none)
      "Secil/edge 1/kiln/Temp/Zone_1"
normalize_metric_path-Below_example =
    normalize_metric_path-Below ascii ascii-IsUnicode "Secil" "edge 1" (some "kiln") "Temp/Zone#1"
      none "Secil/edge 1/kiln/Temp/Zone_1" refl refl metric_run

metric_path_to_canary_id-Agrees_example :
    Agrees "Secil/edge 1/kiln/Temp/Zone_1" open_generator
      (metric_path_to_canary_id ascii "Secil/edge 1/kiln/Temp/Zone_1" open_generator)
metric_path_to_canary_id-Agrees_example =
    metric_path_to_canary_id-Agrees ascii ascii-IsUnicode "Secil" "edge 1" (some "kiln")
      "Temp/Zone#1" none "Secil/edge 1/kiln/Temp/Zone_1" open_generator metric_run

-- A segment with a dot and two segments get one tag, which counts as a collision.
dot_collides :
    (generate_all ascii (λ t. t) ("a.b" ∷ "a/b" ∷ "a.b" ∷ []) open_generator).collisions_total ≡ 1
unfolding generate_all generate path_segments trimmed_segments filled split strip is_space
    tag_of_segments escaped_texts count_escapes escape_segment is_allowed_char join
    record_generation get put String-discrete
dot_collides = refl

escape_run : tag_of ascii "a b/c$" ≡ ok "a b.c_x0024"
unfolding tag_of path_segments trimmed_segments filled split strip is_space tag_of_segments
    escaped_texts escape_segment is_allowed_char join hex hex_digits
escape_run = refl

no_collision :
    (generate_all ascii (λ t. t) ("a" ∷ " a" ∷ "b" ∷ []) open_generator).collisions_total ≡ 0
unfolding generate_all generate path_segments trimmed_segments filled split strip is_space
    tag_of_segments escaped_texts count_escapes escape_segment is_allowed_char join
    record_generation get put String-discrete
no_collision = refl

tag_run : (tag_of ascii "a" ≡ ok "a") × (tag_of ascii " a" ≡ ok "a")
unfolding tag_of path_segments trimmed_segments filled split strip is_space tag_of_segments
    escaped_texts escape_segment is_allowed_char join
tag_run = (refl, refl)

listed :
    (contains {K = String} "a" ("a" ∷ " a" ∷ "b" ∷ []) ≡ true)
    × (contains {K = String} " a" ("a" ∷ " a" ∷ "b" ∷ []) ≡ true)
unfolding contains String-discrete
listed = (refl, refl)

generate_all_distinct_example : strip "a" ≡ strip " a"
generate_all_distinct_example =
    generate_all_distinct ascii (λ t. t) ("a" ∷ " a" ∷ "b" ∷ []) "a" " a" "a" no_collision listed.0
      listed.1 tag_run.0 tag_run.1
