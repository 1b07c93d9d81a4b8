-- ===== src/Uns/CanaryId/Segments.antt =====
-- Normalised segments under the steps of `generate`: nothing is stripped, dropped or escaped.
use Prim.Native.Char.{Char}
use mathlib.Core.Path.{ap₂}
use dbirth.Base.{
  ℕ, String, Bool, true, false, ◌≡◌, refl, ◌∙◌, ap, arith, List, [], ◌∷◌, All, if◌then◌else◌,
}
use dbirth.Base.Result.{ok}
use dbirth.Base.Strings.{Unicode, is_space, is_empty, all_chars, join, replace, strip_chars, ◌<>◌}
use dbirth.Base.Strings.Trim.{is_char, starts, ends, strip_same}
use dbirth.Base.Strings.Words.{Free}
use dbirth.Base.Strings.Words.{append_not_empty}
use dbirth.Uns.{filled}
use dbirth.Uns.Clean.{IsUnicode, strip-IsClean, starts-space, ends-space}
use dbirth.Uns.Paths.{IsSegment, slash-Free}
use dbirth.Uns.Scan.{is_fine}
use dbirth.Uns.CanaryId.{
  escape_segment, is_allowed_char, trimmed_onto, trimmed_segments, escaped_texts, count_escapes,
}

-- neither end passes a test, and there is one
pub record Firm (test : ℕ → Bool) (s : String) : Type 0 where
  pub start : starts test s ≡ false
  pub end : ends test s ≡ false
  pub not_empty : is_empty s ≡ false

pub starts-append :
    (test : ℕ → Bool) (a b : String) → is_empty a ≡ false → starts test (a <> b) ≡ starts test a
starts-append test String.[] b h = absurd (cc (h))
starts-append test (String.◌∷◌ c a) b h = refl

pub ends-cons :
    (test : ℕ → Bool) (c : Char) (s : String)
    → is_empty s ≡ false
    → ends test (String.◌∷◌ c s) ≡ ends test s
ends-cons test c String.[] h = absurd (cc (h))
ends-cons test c (String.◌∷◌ d s) h = refl

pub ends-append :
    (test : ℕ → Bool) (a b : String) → is_empty b ≡ false → ends test (a <> b) ≡ ends test b
ends-append test String.[] b h = refl
ends-append test (String.◌∷◌ c a) b h =
    ends-cons test c (a <> b) (append_not_empty a b h) ∙ ends-append test a b h

pub join-Firm :
    (test : ℕ → Bool) (w : String) (ws : List String)
    → All (Firm test) (w ∷ ws)
    → Firm test (join "/" (w ∷ ws))
unfolding join
join-Firm test w [] h = h.0
join-Firm test w (v ∷ ws) h =
    let rest = join-Firm test v ws h.1 in
    let whole = "/" <> join "/" (v ∷ ws) in
    record {
      start = starts-append test w whole h.0.not_empty ∙ h.0.start;
      end =
          ends-append test w whole refl
          ∙ ends-cons test "/" (join "/" (v ∷ ws)) rest.not_empty
          ∙ rest.end;
      not_empty = append_not_empty w whole refl;
    }

pub strip-Firm : (test : ℕ → Bool) (s : String) → Firm test s → strip_chars test s ≡ s
strip-Firm test s h = strip_same test s h.start h.end

pub filled_one :
    (w : String) (rest : List String)
    → is_empty w ≡ false
    → (if is_empty w then rest else w ∷ rest) ≡ w ∷ rest
filled_one String.[] rest h = absurd (cc (h))
filled_one (String.◌∷◌ c w) rest h = refl

module _ (u : Unicode) (h : IsUnicode u) where
  pub starts-slash : (s : String) → all_chars (is_fine u) s ≡ true → starts (is_char b'/') s ≡ false
  starts-slash String.[] f = refl
  starts-slash (String.◌∷◌ c s) f = ground (arith, slash-Free u h (String.◌∷◌ c s) f)

  pub ends-slash : (s : String) → all_chars (is_fine u) s ≡ true → ends (is_char b'/') s ≡ false
  ends-slash String.[] f = refl
  ends-slash (String.◌∷◌ c String.[]) f = ground (arith, slash-Free u h (String.◌∷◌ c "") f)
  ends-slash (String.◌∷◌ c (String.◌∷◌ d s)) f = ends-slash (String.◌∷◌ d s) (ground (arith, f))

  pub space-Firm : (s : String) → IsSegment u s → Firm is_space s
  space-Firm s k = record {
    start = starts-space u h s k.is_clean.chars k.is_clean.left;
    end = ends-space u h s k.is_clean.chars k.is_clean.right;
    not_empty = k.not_empty;
  }

  pub slash-Firm : (s : String) → IsSegment u s → Firm (is_char b'/') s
  slash-Firm s k = record {
    start = starts-slash s k.is_clean.chars;
    end = ends-slash s k.is_clean.chars;
    not_empty = k.not_empty;
  }

  pub filled_same : (ws : List String) → All (IsSegment u) ws → filled ws ≡ ws
  unfolding filled
  filled_same [] k = refl
  filled_same (w ∷ ws) k =
      ap (λ l. if is_empty w then l else w ∷ l) (filled_same ws k.1) ∙ filled_one w ws k.0.not_empty

  pub onto_one :
      (w : String) (ws : List String) → is_empty w ≡ false → trimmed_onto w (ok ws) ≡ ok (w ∷ ws)
  onto_one String.[] ws e = absurd (cc (e))
  onto_one (String.◌∷◌ c w) ws e = refl

  pub trimmed_same : (ws : List String) → All (IsSegment u) ws → trimmed_segments ws ≡ ok ws
  unfolding trimmed_segments
  trimmed_same [] k = refl
  trimmed_same (w ∷ ws) k =
      ap (λ x. trimmed_onto x (trimmed_segments ws)) (strip-IsClean u h w k.0.is_clean)
      ∙ ap (trimmed_onto w) (trimmed_same ws k.1)
      ∙ onto_one w ws k.0.not_empty

  pub escape_same : (s : String) → all_chars (is_fine u) s ≡ true → escape_segment u s ≡ (s, 0)
  unfolding escape_segment is_allowed_char
  escape_same String.[] f = refl
  escape_same (String.◌∷◌ c s) f = ground (arith, f, escape_same s (ground (arith, f)))

  pub texts_same : (ws : List String) → All (IsSegment u) ws → escaped_texts u ws ≡ ws
  unfolding escaped_texts
  texts_same [] k = refl
  texts_same (w ∷ ws) k =
      ap₂ ◌∷◌ (ap (λ r. r.0) (escape_same w k.0.is_clean.chars)) (texts_same ws k.1)

  pub no_escapes : (ws : List String) → All (IsSegment u) ws → count_escapes u ws ≡ 0
  unfolding count_escapes
  no_escapes [] k = refl
  no_escapes (w ∷ ws) k = ground (arith, escape_same w k.0.is_clean.chars, no_escapes ws k.1)

pub replace-append :
    (a b : String) → Free "/" a → replace b'/' "." (a <> b) ≡ a <> replace b'/' "." b
unfolding replace
replace-append String.[] b h = refl
replace-append (String.◌∷◌ c a) b h = ground (arith, h, replace-append a b (ground (arith, h)))

pub replace-Free : (a : String) → Free "/" a → replace b'/' "." a ≡ a
unfolding replace
replace-Free String.[] h = refl
replace-Free (String.◌∷◌ c a) h = ground (arith, h, replace-Free a (ground (arith, h)))
