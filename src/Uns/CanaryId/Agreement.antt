-- ===== src/Uns/CanaryId/Agreement.antt =====
-- The tag of a normalised metric path. The migrations keep in the database, for every metric, the tag
-- `replace(uns_path, '/', '.')`, in a column that is generated from the path.
use dbirth.Base.{
  String, ◌≡◌, refl, sym, ◌∙◌, ap, arith, Option, none, some, List, [], ◌∷◌, All, All-map,
}
use dbirth.Base.Dict.{get, string_key, String-discrete}
use dbirth.Base.Result.{Result, ok}
use dbirth.Base.Strings.{Unicode, is_space, is_empty, join, replace, strip, ◌<>◌}
use dbirth.Base.Strings.Trim.{is_char}
use dbirth.Uns.{normalize_metric_path}
use dbirth.Uns.Clean.{IsUnicode}
use dbirth.Uns.Paths.{IsSegment, Joined, normalize_metric_path-Joined, split-segments, slash-Free}
use dbirth.Uns.CanaryId.{
  CanaryIdGenerator, IdError, record_beside, unless_same, path_segments, tag_of_segments, generate,
  count_segments, record_generation, generate_canary_id, metric_path_to_canary_id,
}
use dbirth.Uns.CanaryId.Segments.{
  Firm, join-Firm, strip-Firm, space-Firm, slash-Firm, filled_same, trimmed_same, texts_same,
  no_escapes, replace-append, replace-Free,
}

slashed : (t : String) → replace b'/' "." ("/" <> t) ≡ "." <> replace b'/' "." t
unfolding replace
slashed t = refl

module _ (u : Unicode) (h : IsUnicode u) where
  replace-join :
      (w : String) (ws : List String)
      → All (IsSegment u) (w ∷ ws)
      → replace b'/' "." (join "/" (w ∷ ws)) ≡ join "." (w ∷ ws)
  unfolding join
  replace-join w [] k = replace-Free w (slash-Free u h w k.0.is_clean.chars)
  replace-join w (v ∷ ws) k =
      replace-append w ("/" <> join "/" (v ∷ ws)) (slash-Free u h w k.0.is_clean.chars)
      ∙ ap (λ t. w <> t) (slashed (join "/" (v ∷ ws)))
      ∙ ap (λ t. w <> "." <> t) (replace-join v ws k.1)

  stripped_path :
      (w : String) (ws : List String)
      → All (IsSegment u) (w ∷ ws)
      → strip (join "/" (w ∷ ws)) ≡ join "/" (w ∷ ws)
  unfolding strip
  stripped_path w ws k =
      strip-Firm is_space (join "/" (w ∷ ws)) (
        join-Firm is_space w ws (All-map (IsSegment u) (Firm is_space) (space-Firm u h) (w ∷ ws) k))

  path_Firm :
      (w : String) (ws : List String)
      → All (IsSegment u) (w ∷ ws)
      → Firm (is_char b'/') (join "/" (w ∷ ws))
  path_Firm w ws k =
      join-Firm (is_char b'/') w ws
        (All-map (IsSegment u) (Firm (is_char b'/')) (slash-Firm u h) (w ∷ ws) k)

  segments_same :
      (w : String) (ws : List String)
      → All (IsSegment u) (w ∷ ws)
      → path_segments (join "/" (w ∷ ws)) ≡ ok (w ∷ ws)
  unfolding path_segments
  segments_same w ws k = rw (stripped_path w ws k) (
      rw ((path_Firm w ws k).not_empty) (
        rw (strip-Firm (is_char b'/') (join "/" (w ∷ ws)) (path_Firm w ws k)) (
          rw (split-segments u h w ws k)
            (rw (filled_same u h (w ∷ ws) k) (trimmed_same u h (w ∷ ws) k)))))

  tag_same :
      (w : String) (ws : List String)
      → All (IsSegment u) (w ∷ ws)
      → tag_of_segments u (w ∷ ws) ≡ replace b'/' "." (join "/" (w ∷ ws))
  unfolding tag_of_segments
  tag_same w ws k = ap (join ".") (texts_same u h (w ∷ ws) k) ∙ sym (replace-join w ws k)

-- the tag of a path in the database, and no escape counted
abbrev pub Agrees : String → CanaryIdGenerator → Result IdError String × CanaryIdGenerator → Type 0
Agrees path g r = (r.0 ≡ ok (replace b'/' "." path)) × (r.1.escapes_total ≡ g.escapes_total)

same_escapes :
    {a b : String} (d : Dec (a ≡ b)) (g : CanaryIdGenerator)
    → (unless_same d g).escapes_total ≡ g.escapes_total
same_escapes (yes _) g = refl
same_escapes (no _) g = refl

beside_escapes :
    (found : Option String) (tag path : String) (g : CanaryIdGenerator)
    → (record_beside found tag path g).escapes_total ≡ g.escapes_total
beside_escapes none tag path g = refl
beside_escapes (some existing) tag path g = same_escapes (String-discrete existing path) g

module _ (u : Unicode) (h : IsUnicode u) where
  from-Agrees :
      (w : String) (ws : List String) (path : String) (g : CanaryIdGenerator)
      → All (IsSegment u) (w ∷ ws)
      → join "/" (w ∷ ws) ≡ path
      → Agrees path g (generate_canary_id u path g)
  unfolding generate_canary_id generate record_generation
  from-Agrees w ws path g k e =
      let segments : path_segments path ≡ ok (w ∷ ws) =
        ap path_segments (sym e) ∙ segments_same u h w ws k in
      let tag = tag_same u h w ws k ∙ ap (replace b'/' ".") e in
      rw segments (
        ap ok tag,
        beside_escapes (get (tag_of_segments u (w ∷ ws)) g.known_ids) (tag_of_segments u (w ∷ ws))
              (strip path) (count_segments u (w ∷ ws) g)
            ∙ ground (arith, no_escapes u h (w ∷ ws) k),
      )

  path-Agrees :
      (path : String) (g : CanaryIdGenerator)
      → Joined u path
      → Agrees path g (metric_path_to_canary_id u path g)
  unfolding metric_path_to_canary_id
  path-Agrees path g j =
      let same =
        ap strip (sym j.is_join) ∙ stripped_path u h j.first j.others j.segments ∙ j.is_join in
      let not_empty =
        ap is_empty (sym j.is_join) ∙ (path_Firm u h j.first j.others j.segments).not_empty in
      rw same (rw not_empty (from-Agrees j.first j.others path g j.segments j.is_join))

-- Whatever the generator knows, the tag of a path that `normalize_metric_path` gives is the path with
-- dots for its slashes, the expression that the database computes the tag by: the call does not fail
-- and counts no escape.
pub metric_path_to_canary_id-Agrees :
    (u : Unicode)
    → IsUnicode u
    → (group edge_node : String) (device : Option String) (metric_name : String)
      (extra_segments : Option (List String)) (path : String) (g : CanaryIdGenerator)
    → normalize_metric_path u group edge_node device metric_name extra_segments ≡ ok path
    → Agrees path g (metric_path_to_canary_id u path g)
metric_path_to_canary_id-Agrees u h group edge_node device metric_name extra_segments path g e =
    path-Agrees u h path g
      (normalize_metric_path-Joined u group edge_node device metric_name extra_segments path e)
