-- ===== src/Uns.antt =====
-- The paths of the unified namespace (`path_normalizer.py`): a value is split at slashes, every
-- segment is cleaned, and the segments of a device and of a metric are joined. An argument that is
-- not a string is none or a list of strings, as `extra_segments` is.
pub mod Scan
pub mod Clean
pub mod Paths
pub mod CanaryId
mod Tests
use Prim.Native.Char.{Char, code}
use Prim.Native.String
use dbirth.Base.{
  ℕ, String, Bool, true, false, ◌||◌, ◌&&◌, Option, none, some, List, [], ◌∷◌, ◌++◌, ◌==◌,
  if◌then◌else◌,
}
use dbirth.Base.Result.{Result, ok, err}
use dbirth.Base.Strings.{Unicode, is_space, is_empty, split, join, strip, strip_chars, ◌<>◌}
use dbirth.Base.Strings.Trim.{is_char, starts}

-- the argument of `_split_value`
pub data Value : Type 0 where
  absent : Value
  text : String → Value
  sequence : List String → Value

-- `[segment for segment in segments if segment]`
unfoldable pub filled : List String → List String
filled [] = []
filled (w ∷ ws) = let rest = filled ws in if is_empty w then rest else w ∷ rest

unfoldable pub split_text : String → List String
unfolding split strip filled
split_text s = let trimmed = strip s in if is_empty trimmed then [] else filled (split b'/' trimmed)

unfoldable pub split_texts : List String → List String
unfolding split_text
split_texts [] = []
split_texts (s ∷ ss) = split_text s ++ split_texts ss

-- `_split_value`
unfoldable pub split_value : Value → List String
unfolding split_texts
split_value absent = []
split_value (text s) = split_text s
split_value (sequence ss) = split_texts ss

-- the character stays as it is
abbrev pub is_kept : Unicode → ℕ → Bool
is_kept u c = u.is_alnum c || (c == b'.' || (c == b'_' || c == b'-'))

-- what the loop appends for a character; the flags are that it is a space, and that the last was one
abbrev pub appended : Unicode → Bool → Bool → Char → String → String
appended u true true c rest = rest
appended u true false c rest = String.◌∷◌ " " rest
appended u false last c rest = if is_kept u (code c) then String.◌∷◌ c rest else String.◌∷◌ "_" rest

-- the loop of `_normalise_segment`, with `last_was_space`
unfoldable pub scan : Unicode → Bool → String → String
unfolding is_space
scan u last String.[] = ""
scan u last (String.◌∷◌ c s) =
    let space = is_space (code c) in appended u space last c (scan u space s)

abbrev pub unless_doubled : Bool → Char → String → String
unless_doubled true c rest = rest
unless_doubled false c rest = String.◌∷◌ c rest

-- `re.compile(x{2,}).sub(x, text)`: one is left of every run
unfoldable pub collapse : ℕ → String → String
collapse x String.[] = ""
collapse x (String.◌∷◌ c s) =
    unless_doubled (is_char x (code c) && starts (is_char x) s) c (collapse x s)

-- a character of `"_ -"`
abbrev pub is_edge : ℕ → Bool
is_edge c = c == b'_' || (c == b' ' || c == b'-')

-- the text between the normal form and the result
unfoldable pub clean : Unicode → String → String
unfolding scan collapse
clean u s = strip_chars is_edge (collapse b'-' (collapse b'_' (scan u false s)))

-- `_normalise_segment`
unfoldable pub normalise_segment : Unicode → String → String
unfolding clean strip
normalise_segment u segment =
    let normalised = strip (u.nfc segment) in if is_empty normalised then "" else clean u normalised

unfoldable pub normalised : Unicode → List String → List String
unfolding normalise_segment
normalised u [] = []
normalised u (s ∷ ss) =
    let rest = normalised u ss in
    let cleaned = normalise_segment u s in if is_empty cleaned then rest else cleaned ∷ rest

unfoldable pub split_values : List Value → List String
unfolding split_value
split_values [] = []
split_values (v ∷ vs) = split_value v ++ split_values vs

-- `_normalised_segments`
unfoldable pub normalised_segments : Unicode → List Value → List String
unfolding normalised split_values
normalised_segments u vs = normalised u (split_values vs)

-- the messages of the `ValueError`s
pub data PathError : Type 0 where
  group_required edge_node_required no_segments : PathError
  metric_name_required no_device_segments no_metric_segments : PathError

-- an argument that is `str | None`
abbrev pub optional_text : Option String → Value
optional_text none = absent
optional_text (some s) = text s

-- `extra_segments or []`
abbrev pub extra : Option (List String) → Value
extra none = sequence []
extra (some ss) = sequence ss

abbrev pub join_or : PathError → List String → Result PathError String
join_or e [] = err e
join_or e (w ∷ ws) = ok (join "/" (w ∷ ws))

-- `normalize_device_path`
unfoldable pub normalize_device_path :
    Unicode → String → String → Option String → Option (List String) → Result PathError String
unfolding normalised_segments join
normalize_device_path u group edge_node device extra_segments =
    if is_empty group
    then err group_required
    else if is_empty edge_node
    then err edge_node_required
    else join_or no_segments (
        normalised_segments u
          (text group ∷ text edge_node ∷ optional_text device ∷ extra extra_segments ∷ []))

abbrev pub join_both : List String → List String → Result PathError String
join_both [] metric = err no_device_segments
join_both (w ∷ ws) [] = err no_metric_segments
join_both (w ∷ ws) (v ∷ vs) = ok (join "/" ((w ∷ ws) ++ v ∷ vs))

-- `normalize_metric_path`
unfoldable pub normalize_metric_path :
    Unicode
    → String
    → String
    → Option String
    → String
    → Option (List String)
    → Result PathError String
unfolding normalised_segments join
normalize_metric_path u group edge_node device metric_name extra_segments =
    if is_empty metric_name
    then err metric_name_required
    else join_both (normalised_segments u (text group ∷ text edge_node ∷ optional_text device ∷ []))
        (normalised_segments u (extra extra_segments ∷ text metric_name ∷ []))
