-- ===== src/Uns/Clean.antt =====
-- `_normalise_segment`: what a normalised segment looks like, and that it is normalised to itself.
use Prim.Native.Char.{Char, code}
use dbirth.Base.{ℕ, String, Bool, true, false, ◌&&◌, ◌≡◌, refl, ap, ◌∙◌, sym, arith, if◌then◌else◌}
use dbirth.Base.Strings.{Unicode, is_space, is_empty, all_chars, strip}
use dbirth.Base.Strings.Trim.{
  is_char, starts, ends, runs, strip_same, starts-strip, ends-strip, all_chars-strip, runs-strip,
}
use text.Mathlib.TextEquality.{Char-path}
use dbirth.Uns.{is_kept, appended, scan, collapse, is_edge, clean, normalise_segment}
use dbirth.Uns.Scan.{
  is_fine, not_blank, all_chars-scan, runs-scan, all_chars-collapse, runs-collapse,
  runs-collapse_other, collapse_same,
}

-- What is used of the tables of Unicode: no letter or digit is a space or the slash.
pub record IsUnicode (u : Unicode) : Type 0 where
  pub no_space : (c : ℕ) → u.is_alnum c ≡ true → is_space c ≡ false
  pub no_slash : u.is_alnum b'/' ≡ false

-- Only letters, digits, dots, underscores, dashes and spaces, no underscore, dash or space beside
-- another one, and none of the three at an end.
pub record IsClean (u : Unicode) (s : String) : Type 0 where
  pub chars : all_chars (is_fine u) s ≡ true
  pub spaces : runs b' ' s ≡ false
  pub underscores : runs b'_' s ≡ false
  pub dashes : runs b'-' s ≡ false
  pub left : starts is_edge s ≡ false
  pub right : ends is_edge s ≡ false

module _ (u : Unicode) where
  abbrev passed : String → String
  passed s = collapse b'-' (collapse b'_' (scan u false s))

  clean-IsClean : (s : String) → IsClean u (clean u s)
  unfolding clean
  clean-IsClean s =
      let one = collapse b'_' (scan u false s) in
      record {
        chars = all_chars-strip is_edge (is_fine u) (passed s) (
            all_chars-collapse (is_fine u) b'-' one
              (all_chars-collapse (is_fine u) b'_' (scan u false s) (all_chars-scan u false s)));
        spaces = runs-strip is_edge b' ' (passed s) (
            runs-collapse_other b' ' b'-' one
              (runs-collapse_other b' ' b'_' (scan u false s) (runs-scan u s)));
        underscores =
            runs-strip is_edge b'_' (passed s)
              (runs-collapse_other b'_' b'-' one (runs-collapse b'_' (scan u false s)));
        dashes = runs-strip is_edge b'-' (passed s) (runs-collapse b'-' one);
        left = starts-strip is_edge (passed s);
        right = ends-strip is_edge (passed s);
      }

  empty-IsClean : IsClean u ""
  empty-IsClean = record {
    chars = refl;
    spaces = refl;
    underscores = refl;
    dashes = refl;
    left = refl;
    right = refl;
  }

  abbrev unless_empty : Bool → String → String
  unless_empty b s = if b then "" else s

  chosen-IsClean : (b : Bool) (s : String) → IsClean u s → IsClean u (unless_empty b s)
  chosen-IsClean true s h = empty-IsClean
  chosen-IsClean false s h = h

  pub normalise_segment-IsClean : (s : String) → IsClean u (normalise_segment u s)
  unfolding normalise_segment
  normalise_segment-IsClean s =
      chosen-IsClean (is_empty (strip (u.nfc s))) (clean u (strip (u.nfc s)))
        (clean-IsClean (strip (u.nfc s)))

module _ (u : Unicode) (h : IsUnicode u) where
  edge_space : (c : ℕ) → is_fine u c ≡ true → is_edge c ≡ false → is_space c ≡ false
  unfolding is_space
  edge_space c f e = ground (arith, f, e, h.no_space c)

  pub starts-space :
      (s : String)
      → all_chars (is_fine u) s ≡ true
      → starts is_edge s ≡ false
      → starts is_space s ≡ false
  starts-space String.[] f e = refl
  starts-space (String.◌∷◌ c s) f e = edge_space (code c) (ground (arith, f)) e

  pub ends-space :
      (s : String)
      → all_chars (is_fine u) s ≡ true
      → ends is_edge s ≡ false
      → ends is_space s ≡ false
  ends-space String.[] f e = refl
  ends-space (String.◌∷◌ c String.[]) f e = edge_space (code c) (ground (arith, f)) e
  ends-space (String.◌∷◌ c (String.◌∷◌ d s)) f e = ends-space (String.◌∷◌ d s) (ground (arith, f)) e

  pub strip-IsClean : (s : String) → IsClean u s → strip s ≡ s
  unfolding strip
  strip-IsClean s k =
      strip_same is_space s (starts-space s k.chars k.left) (ends-space s k.chars k.right)

  fine_space : (c : ℕ) → is_fine u c ≡ true → is_space c ≡ true → c ≡ b' '
  unfolding is_space
  fine_space c f e = ground (arith, f, e, h.no_space c)

  kept_fine : (c : ℕ) → is_fine u c ≡ true → is_space c ≡ false → is_kept u c ≡ true
  kept_fine c f e = ground (arith, f, not_blank c e)

  kept_char :
      (t : Bool) (c d : Char) (s : String)
      → t ≡ true
      → (if t then String.◌∷◌ c s else String.◌∷◌ d s) ≡ String.◌∷◌ c s
  kept_char true c d s e = refl
  kept_char false c d s e = absurd (cc (e))

  appended_same :
      (space last : Bool) (c : Char) (s : String)
      → is_space (code c) ≡ space
      → is_fine u (code c) ≡ true
      → ((last ≡ true) → is_char b' ' (code c) ≡ false)
      → appended u space last c s ≡ String.◌∷◌ c s
  appended_same true true c s e f b =
      let at = fine_space (code c) f e in absurd (ground (arith, at, b refl))
  appended_same true false c s e f b =
      ap (λ d. String.◌∷◌ d s) (Char-path " " c (sym (fine_space (code c) f e)))
  appended_same false last c s e f b =
      kept_char (is_kept u (code c)) c "_" s (kept_fine (code c) f e)

  next_single :
      (c : ℕ) (s : String)
      → is_fine u c ≡ true
      → runs b' ' s ≡ false
      → (is_char b' ' c && starts (is_char b' ') s) ≡ false
      → (is_space c ≡ true)
      → starts (is_char b' ') s ≡ false
  next_single c s f r k e = let at = fine_space c f e in ground (arith, at, k)

  scan_same :
      (last : Bool) (s : String)
      → all_chars (is_fine u) s ≡ true
      → runs b' ' s ≡ false
      → ((last ≡ true) → starts (is_char b' ') s ≡ false)
      → scan u last s ≡ s
  unfolding scan
  scan_same last String.[] f r b = refl
  scan_same last (String.◌∷◌ c s) f r b =
      ap (appended u (is_space (code c)) last c) (
        scan_same (is_space (code c)) s (ground (arith, f)) (ground (arith, r))
          (next_single (code c) s (ground (arith, f)) (ground (arith, r)) (ground (arith, r))))
      ∙ appended_same (is_space (code c)) last c s refl (ground (arith, f)) b

  pub clean_same : (s : String) → IsClean u s → clean u s ≡ s
  unfolding clean
  clean_same s k = rw (scan_same false s k.chars k.spaces (λ e. absurd (cc (e)))) (
      rw (collapse_same b'_' s k.underscores)
        (rw (collapse_same b'-' s k.dashes) (strip_same is_edge s k.left k.right)))

  empty_same : (s : String) → (if is_empty s then "" else s) ≡ s
  empty_same String.[] = refl
  empty_same (String.◌∷◌ c s) = refl

  pub normalise_segment_same : (s : String) → IsClean u s → u.nfc s ≡ s → normalise_segment u s ≡ s
  unfolding normalise_segment
  normalise_segment_same s k n = rw n (rw (strip-IsClean s k) (rw (clean_same s k) (empty_same s)))

-- A segment that was normalised is its own normalised segment, where its text is in normal form C.
pub normalise_segment-idempotent :
    (u : Unicode)
    → IsUnicode u
    → (s : String) → u.nfc (normalise_segment u s) ≡ normalise_segment u s
    → normalise_segment u (normalise_segment u s) ≡ normalise_segment u s
normalise_segment-idempotent u h s n =
    normalise_segment_same u h (normalise_segment u s) (normalise_segment-IsClean u s) n
