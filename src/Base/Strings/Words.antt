-- ===== src/Base/Strings/Words.antt =====
-- Words that are joined and split again.
use Prim.Native.Char.{Char, code}
use Prim.Native.String.{String}
use mathlib.Core.Path.{◌≡◌, refl, ap, ◌∙◌}
use mathlib.Core.Bool.{Bool, true, false}
use mathlib.Core.List.{List, [], ◌∷◌}
use native.Mathlib.Omega.{arith}
use dbirth.Base.Tests.{◌==◌}
use dbirth.Base.Lists.{All}
use dbirth.Base.Strings.{is_empty, has_char, split, join, cut_at, prepend, ◌<>◌}

-- a separator of one character, as text
abbrev pub as_text : Char → String
as_text c = String.◌∷◌ c ""

abbrev attach : String → List String → List String
attach String.[] ws = ws
attach (String.◌∷◌ c w) ws = prepend c (attach w ws)

attach-cons : (w v : String) (vs : List String) → attach w (v ∷ vs) ≡ (w <> v) ∷ vs
attach-cons String.[] v vs = refl
attach-cons (String.◌∷◌ c w) v vs = ap (prepend c) (attach-cons w v vs)

append-empty : (w : String) → w <> "" ≡ w
append-empty String.[] = refl
append-empty (String.◌∷◌ c w) = ap (String.◌∷◌ c) (append-empty w)

pub append_not_empty : (a b : String) → is_empty b ≡ false → is_empty (a <> b) ≡ false
append_not_empty String.[] b h = h
append_not_empty (String.◌∷◌ c a) b h = refl

module _ (sep : Char) where
  abbrev pub Free : String → Type 0
  Free w = has_char (code sep) w ≡ false

  keeps : (t : Bool) (c : Char) (ws : List String) → t ≡ false → cut_at t c ws ≡ prepend c ws
  keeps true c ws h = ground (arith, h)
  keeps false c ws h = refl

  cuts : (t : Bool) (c : Char) (ws : List String) → t ≡ true → cut_at t c ws ≡ "" ∷ ws
  cuts true c ws h = refl
  cuts false c ws h = ground (arith, h)

  split-append : (w r : String) → Free w → split (code sep) (w <> r) ≡ attach w (split (code sep) r)
  unfolding split
  split-append String.[] r h = refl
  split-append (String.◌∷◌ c w) r h =
      keeps (code c == code sep) c (split (code sep) (w <> r)) (ground (arith, h))
      ∙ ap (prepend c) (split-append w r (ground (arith, h)))

  split-sep : (r : String) → split (code sep) (String.◌∷◌ sep r) ≡ "" ∷ split (code sep) r
  unfolding split
  split-sep r = cuts (code sep == code sep) sep (split (code sep) r) (ground arith)

  split-word : (w : String) → Free w → split (code sep) w ≡ w ∷ []
  unfolding split
  split-word String.[] h = refl
  split-word (String.◌∷◌ c w) h =
      keeps (code c == code sep) c (split (code sep) w) (ground (arith, h))
      ∙ ap (prepend c) (split-word w (ground (arith, h)))

  pub split-join :
      (w : String) (ws : List String)
      → Free w
      → All Free ws
      → split (code sep) (join (as_text sep) (w ∷ ws)) ≡ w ∷ ws
  unfolding join split
  split-join w [] h hs = split-word w h
  split-join w (v ∷ ws) h hs =
      split-append w (String.◌∷◌ sep (join (as_text sep) (v ∷ ws))) h
      ∙ ap (attach w) (split-sep (join (as_text sep) (v ∷ ws)))
      ∙ ap (λ l. attach w ("" ∷ l)) (split-join v ws hs.0 hs.1)
      ∙ attach-cons w "" (v ∷ ws)
      ∙ ap (λ x. x ∷ v ∷ ws) (append-empty w)
