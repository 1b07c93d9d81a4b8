-- ===== src/Uns/CanaryId.antt =====
-- `canary_id.py`: the tag of a path, and the generator that counts collisions and escapes. The
-- checksum of a tag, `crc32` of its bytes, is a parameter.
pub mod Collisions
pub mod Segments
pub mod Agreement
use Prim.Native.Char.{code}
use Prim.Native.String
use dbirth.Base.{
  ℕ, zero, suc, ◌+◌, ◌/◌, ◌%◌, String, Bool, true, false, ◌||◌, Option, none, some, List, [], ◌∷◌,
  ◌==◌, ◌≡◌, ltb, if◌then◌else◌,
}
use dbirth.Base.Dict.{Dict, get, put, string_key, String-discrete}
use dbirth.Base.Result.{Result, ok, err, ◌>>=◌}
use dbirth.Base.Strings.{Unicode, is_space, is_empty, split, join, strip, strip_chars, ◌<>◌}
use dbirth.Base.Strings.Trim.{is_char}
use dbirth.Base.Text.{digit}
use dbirth.Uns.{filled}

-- `_is_allowed_char`
unfoldable pub is_allowed_char : Unicode → ℕ → Bool
is_allowed_char u c = u.is_alnum c || (c == b' ' || (c == b'.' || (c == b'_' || c == b'-')))

abbrev hex_digit : ℕ → String
hex_digit d =
    if ltb d 10
    then digit d
    else if d == 10
    then "A"
    else if d == 11
    then "B"
    else if d == 12
    then "C"
    else if d == 13
    then "D"
    else if d == 14
    then "E"
    else "F"

-- the last hexadecimal digits of a number
unfoldable pub hex_digits : ℕ → ℕ → String
hex_digits zero n = ""
hex_digits (suc k) n = hex_digits k (n / 16) <> hex_digit (n % 16)

-- `format(n, "04X")`: a code point is less than 16 ^ 6
unfoldable pub hex : ℕ → String
unfolding hex_digits
hex n = hex_digits (if ltb n 65536 then 4 else if ltb n 1048576 then 5 else 6) n

abbrev pub escape_char : Unicode → ℕ → String → String × ℕ → String × ℕ
escape_char u c same rest =
    if is_allowed_char u c
    then (same <> rest.0, rest.1)
    else if is_space c
    then (" " <> rest.0, rest.1 + 1)
    else ("_x" <> hex c <> rest.0, rest.1 + 1)

-- the loop of `_escape_segment`: the text, and how many characters were replaced
unfoldable pub escape_segment : Unicode → String → String × ℕ
unfolding is_allowed_char is_space hex
escape_segment u String.[] = ("", 0)
escape_segment u (String.◌∷◌ c s) = escape_char u (code c) (String.◌∷◌ c "") (escape_segment u s)

-- the messages of the `ValueError`s
pub data IdError : Type 0 where
  blank_path no_segments blank_segment : IdError

abbrev pub trimmed_onto : String → Result IdError (List String) → Result IdError (List String)
trimmed_onto w rest = if is_empty w then err blank_segment else rest >>= (λ ws. ok (w ∷ ws))

-- `normalised_segments`
unfoldable pub trimmed_segments : List String → Result IdError (List String)
unfolding strip
trimmed_segments [] = ok []
trimmed_segments (w ∷ ws) = trimmed_onto (strip w) (trimmed_segments ws)

abbrev pub or_no_segments : List String → Result IdError (List String)
or_no_segments [] = err no_segments
or_no_segments (w ∷ ws) = trimmed_segments (w ∷ ws)

-- the segments of a path, up to the escapes
unfoldable pub path_segments : String → Result IdError (List String)
unfolding strip split filled trimmed_segments
path_segments uns_path =
    let trimmed = strip uns_path in
    if is_empty trimmed
    then err blank_path
    else or_no_segments (filled (split b'/' (strip_chars (is_char b'/') trimmed)))

unfoldable pub escaped_texts : Unicode → List String → List String
unfolding escape_segment
escaped_texts u [] = []
escaped_texts u (w ∷ ws) = (escape_segment u w).0 ∷ escaped_texts u ws

-- how many segments have a replacement
unfoldable pub count_escapes : Unicode → List String → ℕ
unfolding escape_segment
count_escapes u [] = 0
count_escapes u (w ∷ ws) =
    let rest = count_escapes u ws in if (escape_segment u w).1 == 0 then rest else suc rest

pub record CanaryIdGenerator : Type 0 where
  pub known_ids : Dict String String
  pub collisions_total : ℕ
  pub escapes_total : ℕ

-- `__init__`
abbrev pub open_generator : CanaryIdGenerator
open_generator = record { known_ids = []; collisions_total = 0; escapes_total = 0 }

abbrev pub unless_same : {a b : String} → Dec (a ≡ b) → CanaryIdGenerator → CanaryIdGenerator
unless_same (yes _) g = g
unless_same (no _) g = record g { collisions_total = suc g.collisions_total }

abbrev pub record_beside : Option String → String → String → CanaryIdGenerator → CanaryIdGenerator
record_beside none canary_id source_path g = record g {
  known_ids = put canary_id source_path g.known_ids;
}
record_beside (some existing) canary_id source_path g =
    unless_same (String-discrete existing source_path) g

-- `_record_generation`
unfoldable pub record_generation : String → String → CanaryIdGenerator → CanaryIdGenerator
record_generation canary_id source_path g =
    record_beside (get canary_id g.known_ids) canary_id source_path g

pub record CanaryId : Type 0 where
  pub tag : String
  pub checksum : Option String

abbrev pub count_segments : Unicode → List String → CanaryIdGenerator → CanaryIdGenerator
count_segments u ws g = record g { escapes_total = g.escapes_total + count_escapes u ws }

unfoldable pub tag_of_segments : Unicode → List String → String
unfolding escaped_texts join
tag_of_segments u ws = join "." (escaped_texts u ws)

abbrev checksum_of : (String → String) → Bool → String → Option String
checksum_of crc32 true tag = some (crc32 tag)
checksum_of crc32 false tag = none

abbrev pub generate_from :
    Unicode
    → (String → String)
    → Result IdError (List String)
    → String
    → Bool
    → CanaryIdGenerator
    → Result IdError CanaryId × CanaryIdGenerator
generate_from u crc32 (err e) trimmed include_checksum g = (err e, g)
generate_from u crc32 (ok ws) trimmed include_checksum g =
    let tag = tag_of_segments u ws in
    (
      ok (record { tag = tag; checksum = checksum_of crc32 include_checksum tag }),
      record_generation tag trimmed (count_segments u ws g),
    )

-- `generate`
unfoldable pub generate :
    Unicode
    → (String → String)
    → String
    → Bool
    → CanaryIdGenerator
    → Result IdError CanaryId × CanaryIdGenerator
unfolding path_segments record_generation tag_of_segments count_escapes strip
generate u crc32 uns_path include_checksum g =
    generate_from u crc32 (path_segments uns_path) (strip uns_path) include_checksum g

-- a call of `generate_canary_id` with each path in turn, on the module's own generator
unfoldable pub generate_all :
    Unicode → (String → String) → List String → CanaryIdGenerator → CanaryIdGenerator
unfolding generate
generate_all u crc32 [] g = g
generate_all u crc32 (p ∷ ps) g = generate_all u crc32 ps (generate u crc32 p false g).1

abbrev pub tag_from : Unicode → Result IdError (List String) → Result IdError String
tag_from u (err e) = err e
tag_from u (ok ws) = ok (tag_of_segments u ws)

-- the tag that a path gets, whatever the generator knows
unfoldable pub tag_of : Unicode → String → Result IdError String
unfolding path_segments tag_of_segments
tag_of u uns_path = tag_from u (path_segments uns_path)

unfoldable pub generate_canary_id :
    Unicode → String → CanaryIdGenerator → Result IdError String × CanaryIdGenerator
unfolding generate
generate_canary_id u uns_path g =
    let r = generate u (λ t. t) uns_path false g in (r.0 >>= (λ i. ok i.tag), r.1)

-- `metric_path_to_canary_id`; the argument is a string
unfoldable pub metric_path_to_canary_id :
    Unicode → String → CanaryIdGenerator → Result IdError String × CanaryIdGenerator
unfolding generate_canary_id strip
metric_path_to_canary_id u metric_path g =
    let trimmed = strip metric_path in
    if is_empty trimmed then (err blank_path, g) else generate_canary_id u trimmed g
