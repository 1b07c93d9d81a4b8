-- ===== src/Uns/Paths.antt =====
-- `normalize_metric_path` beside `normalize_device_path`.
use mathlib.Core.Path.{ap₂, subst}
use dbirth.Base.{
  String, Bool, true, false, ◌≡◌, refl, ap, ◌∙◌, sym, arith, if◌then◌else◌, Option, none, List, [],
  ◌∷◌, ◌++◌, All, All-append, All-map,
}
use dbirth.Base.Result.{Result, ok, err}
use dbirth.Base.Strings.{Unicode, is_empty, all_chars, split, join, ◌<>◌}
use dbirth.Base.Strings.Words.{Free, split-join}
use dbirth.Uns.{
  Value, text, optional_text, extra, normalise_segment, normalised, normalised_segments, PathError,
  join_or, join_both, normalize_device_path, normalize_metric_path, split_values, no_segments,
}
use dbirth.Uns.Clean.{IsUnicode, IsClean, normalise_segment-IsClean}
use dbirth.Uns.Scan.{is_fine}

-- a segment of a path
pub record IsSegment (u : Unicode) (s : String) : Type 0 where
  pub is_clean : IsClean u s
  pub not_empty : is_empty s ≡ false

module _ (u : Unicode) where
  chosen-All :
      (w : String) (b : Bool) (ws : List String)
      → IsClean u w
      → is_empty w ≡ b
      → All (IsSegment u) ws
      → All (IsSegment u) (if b then ws else w ∷ ws)
  chosen-All w true ws h e hs = hs
  chosen-All w false ws h e hs = (record { is_clean = h; not_empty = e }, hs)

  normalised-All : (ss : List String) → All (IsSegment u) (normalised u ss)
  unfolding normalised
  normalised-All [] = tt
  normalised-All (s ∷ ss) =
      chosen-All (normalise_segment u s) (is_empty (normalise_segment u s)) (normalised u ss)
        (normalise_segment-IsClean u s) refl (normalised-All ss)

  pub normalised_segments-All : (vs : List Value) → All (IsSegment u) (normalised_segments u vs)
  unfolding normalised_segments
  normalised_segments-All vs = normalised-All (split_values vs)

module _ (u : Unicode) (h : IsUnicode u) where
  pub slash-Free : (s : String) → all_chars (is_fine u) s ≡ true → Free "/" s
  slash-Free String.[] f = refl
  slash-Free (String.◌∷◌ c s) f = ground (arith, f, h.no_slash, slash-Free s (ground (arith, f)))

  pub split-segments :
      (w : String) (ws : List String)
      → All (IsSegment u) (w ∷ ws)
      → split b'/' (join "/" (w ∷ ws)) ≡ w ∷ ws
  split-segments w ws k =
      split-join "/" w ws (slash-Free w k.0.is_clean.chars)
        (All-map (IsSegment u) (Free "/") (λ x i. slash-Free x i.is_clean.chars) ws k.1)

assoc : (a b c : String) → (a <> b) <> c ≡ a <> b <> c
assoc String.[] b c = refl
assoc (String.◌∷◌ x a) b c = ap (String.◌∷◌ x) (assoc a b c)

join-append :
    (w : String) (ws : List String) (v : String) (vs : List String)
    → join "/" ((w ∷ ws) ++ v ∷ vs) ≡ join "/" (w ∷ ws) <> "/" <> join "/" (v ∷ vs)
unfolding join
join-append w [] v vs = refl
join-append w (x ∷ ws) v vs =
    ap (λ l. w <> "/" <> l) (join-append x ws v vs)
    ∙ sym (assoc w ("/" <> join "/" (x ∷ ws)) ("/" <> join "/" (v ∷ vs)))

-- what `normalize_metric_path` gives, beside the path of the device
pub record Below (u : Unicode) (device_path : Result PathError String) (path : String)
    : Type 0 where
  pub device : String
  pub metric : String
  pub device_is_path : device_path ≡ ok device
  pub joined : path ≡ device <> "/" <> metric
  pub same_segments : split b'/' path ≡ split b'/' device ++ split b'/' metric
  pub all_segments : All (IsSegment u) (split b'/' path)

module _ (u : Unicode) (h : IsUnicode u) where
  join_both-Below :
      (ws vs : List String) (path : String)
      → All (IsSegment u) ws
      → All (IsSegment u) vs
      → join_both ws vs ≡ ok path
      → Below u (join_or no_segments ws) path
  join_both-Below [] vs path hw hv e = absurd (cc (e))
  join_both-Below (w ∷ ws) [] path hw hv e = absurd (cc (e))
  join_both-Below (w ∷ ws) (v ∷ vs) path hw hv e =
      let made : join "/" ((w ∷ ws) ++ v ∷ vs) ≡ path = cc (e) in
      let all = All-append (IsSegment u) (w ∷ ws) (v ∷ vs) hw hv in
      let whole = split-segments u h w (ws ++ v ∷ vs) all in
      let whole_path : split b'/' path ≡ (w ∷ ws) ++ v ∷ vs = ap (split b'/') (sym made) ∙ whole in
      record {
        device = join "/" (w ∷ ws);
        metric = join "/" (v ∷ vs);
        device_is_path = refl;
        joined = sym made ∙ join-append w ws v vs;
        same_segments =
            whole_path ∙ sym (ap₂ ◌++◌ (split-segments u h w ws hw) (split-segments u h v vs hv));
        all_segments = subst (All (IsSegment u)) (sym whole_path) all;
      }

checked :
    (b : Bool) (e : PathError) (path : String) (r : Result PathError String)
    → (if b then err e else r) ≡ ok path
    → r ≡ ok path
checked true e path r p = absurd (cc (p))
checked false e path r p = p

-- a path as the join of its segments
pub record Joined (u : Unicode) (path : String) : Type 0 where
  pub first : String
  pub others : List String
  pub is_join : join "/" (first ∷ others) ≡ path
  pub segments : All (IsSegment u) (first ∷ others)

join_both-Joined :
    (u : Unicode) (ws vs : List String) (path : String)
    → All (IsSegment u) ws
    → All (IsSegment u) vs
    → join_both ws vs ≡ ok path
    → Joined u path
join_both-Joined u [] vs path hw hv e = absurd (cc (e))
join_both-Joined u (w ∷ ws) [] path hw hv e = absurd (cc (e))
join_both-Joined u (w ∷ ws) (v ∷ vs) path hw hv e = record {
  first = w;
  others = ws ++ v ∷ vs;
  is_join = cc (e);
  segments = All-append (IsSegment u) (w ∷ ws) (v ∷ vs) hw hv;
}

pub normalize_metric_path-Joined :
    (u : Unicode) (group edge_node : String) (device : Option String) (metric_name : String)
    (extra_segments : Option (List String)) (path : String)
    → normalize_metric_path u group edge_node device metric_name extra_segments ≡ ok path
    → Joined u path
unfolding normalize_metric_path
normalize_metric_path-Joined u group edge_node device metric_name extra_segments path e =
    join_both-Joined u
      (normalised_segments u (text group ∷ text edge_node ∷ optional_text device ∷ []))
      (normalised_segments u (extra extra_segments ∷ text metric_name ∷ [])) path
      (normalised_segments-All u (text group ∷ text edge_node ∷ optional_text device ∷ []))
      (normalised_segments-All u (extra extra_segments ∷ text metric_name ∷ []))
      (checked (is_empty metric_name) _ path _ e)

-- Where a metric of a named group and edge node has a path, its device has one: the metric's path is
-- the device's, a slash and at least one more segment. Split at slashes it gives the segments of both
-- in order, and each of them is not empty and normalised: only letters, digits, dots, underscores,
-- dashes and spaces, the last three never doubled and never at an end.
pub normalize_metric_path-Below :
    (u : Unicode)
    → IsUnicode u
    → (group edge_node : String) (device : Option String) (metric_name : String)
      (extra_segments : Option (List String)) (path : String)
    → is_empty group ≡ false
    → is_empty edge_node ≡ false
    → normalize_metric_path u group edge_node device metric_name extra_segments ≡ ok path
    → Below u (normalize_device_path u group edge_node device none) path
unfolding normalize_metric_path normalize_device_path
normalize_metric_path-Below u h group edge_node device metric_name extra_segments path g n e =
    rw g (
      rw n (
        join_both-Below u h
          (normalised_segments u (text group ∷ text edge_node ∷ optional_text device ∷ []))
          (normalised_segments u (extra extra_segments ∷ text metric_name ∷ [])) path
          (normalised_segments-All u (text group ∷ text edge_node ∷ optional_text device ∷ []))
          (normalised_segments-All u (extra extra_segments ∷ text metric_name ∷ []))
          (checked (is_empty metric_name) _ path _ e)))
