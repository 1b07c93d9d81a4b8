-- ===== src/Uns/Scan.antt =====
-- The passes of `_normalise_segment` over the characters of a segment: the loop over the characters
-- and the two substitutions.
use Prim.Native.Char.{Char, code}
use dbirth.Base.{ℕ, String, Bool, true, false, ◌||◌, ◌&&◌, ◌≡◌, refl, ap, ◌∙◌, sym, arith, ◌==◌}
use dbirth.Base.Strings.{Unicode, is_space, all_chars}
use dbirth.Base.Strings.Trim.{is_char, starts, runs}
use dbirth.Uns.{is_kept, appended, scan, unless_doubled, collapse}

-- a character that a segment may hold when it is normalised
abbrev pub is_fine : Unicode → ℕ → Bool
is_fine u c = c == b' ' || is_kept u c

pub not_blank : (c : ℕ) → is_space c ≡ false → is_char b' ' c ≡ false
unfolding is_space
not_blank c h = ground (arith, h)

module _ (u : Unicode) where
  chars-appended :
      (space last : Bool) (c : Char) (rest : String)
      → all_chars (is_fine u) rest ≡ true
      → all_chars (is_fine u) (appended u space last c rest) ≡ true
  chars-appended true true c rest h = h
  chars-appended true false c rest h = h
  chars-appended false last c rest h = ground (arith, h)

  pub all_chars-scan : (last : Bool) (s : String) → all_chars (is_fine u) (scan u last s) ≡ true
  unfolding scan
  all_chars-scan last String.[] = refl
  all_chars-scan last (String.◌∷◌ c s) =
      chars-appended (is_space (code c)) last c (scan u (is_space (code c)) s)
        (all_chars-scan (is_space (code c)) s)

  -- no space stands beside another, and none comes first after a space
  abbrev Single : Bool → String → Type 0
  Single last s = (runs b' ' s ≡ false) × ((last ≡ true) → starts (is_char b' ') s ≡ false)

  Single-appended :
      (space last : Bool) (c : Char) (rest : String)
      → is_space (code c) ≡ space
      → Single space rest
      → Single last (appended u space last c rest)
  Single-appended true true c rest e h = h
  Single-appended true false c rest e h = (ground (arith, h.0, h.1 refl), λ p. absurd (cc (p)))
  Single-appended false last c rest e h =
      let b = not_blank (code c) e in (ground (arith, h.0, b), λ p. ground (arith, b))

  Single-scan : (last : Bool) (s : String) → Single last (scan u last s)
  unfolding scan
  Single-scan last String.[] = (refl, λ p. refl)
  Single-scan last (String.◌∷◌ c s) =
      Single-appended (is_space (code c)) last c (scan u (is_space (code c)) s) refl
        (Single-scan (is_space (code c)) s)

  pub runs-scan : (s : String) → runs b' ' (scan u false s) ≡ false
  runs-scan s = (Single-scan false s).0

starts_at :
    (test : ℕ → Bool) (x : ℕ) (s : String) → starts (is_char x) s ≡ true → starts test s ≡ test x
starts_at test x String.[] h = absurd (cc (h))
starts_at test x (String.◌∷◌ c s) h = let e : code c ≡ x = ground (arith, h) in ap test e

starts-doubled :
    (test : ℕ → Bool) (x : ℕ) (t : Bool) (c : Char) (s rest : String)
    → (is_char x (code c) && starts (is_char x) s) ≡ t
    → starts test rest ≡ starts test s
    → starts test (unless_doubled t c rest) ≡ test (code c)
starts-doubled test x true c s rest e h =
    let at : code c ≡ x = ground (arith, e) in
    h ∙ starts_at test x s (ground (arith, e)) ∙ sym (ap test at)
starts-doubled test x false c s rest e h = refl

-- A substitution leaves the first character.
starts-collapse :
    (test : ℕ → Bool) (x : ℕ) (s : String) → starts test (collapse x s) ≡ starts test s
unfolding collapse
starts-collapse test x String.[] = refl
starts-collapse test x (String.◌∷◌ c s) =
    starts-doubled test x (is_char x (code c) && starts (is_char x) s) c s (collapse x s) refl
      (starts-collapse test x s)

chars-doubled :
    (good : ℕ → Bool) (t : Bool) (c : Char) (rest : String)
    → good (code c) ≡ true
    → all_chars good rest ≡ true
    → all_chars good (unless_doubled t c rest) ≡ true
chars-doubled good true c rest h k = k
chars-doubled good false c rest h k = ground (arith, h, k)

pub all_chars-collapse :
    (good : ℕ → Bool) (x : ℕ) (s : String)
    → all_chars good s ≡ true
    → all_chars good (collapse x s) ≡ true
unfolding collapse
all_chars-collapse good x String.[] h = refl
all_chars-collapse good x (String.◌∷◌ c s) h =
    chars-doubled good (is_char x (code c) && starts (is_char x) s) c (collapse x s)
      (ground (arith, h)) (all_chars-collapse good x s (ground (arith, h)))

runs-doubled :
    (y : ℕ) (t : Bool) (c : Char) (rest : String)
    → ((t ≡ false) → (is_char y (code c) && starts (is_char y) rest) ≡ false)
    → runs y rest ≡ false
    → runs y (unless_doubled t c rest) ≡ false
runs-doubled y true c rest h k = k
runs-doubled y false c rest h k = ground (arith, h refl, k)

-- No run is left of the character that is substituted.
pub runs-collapse : (x : ℕ) (s : String) → runs x (collapse x s) ≡ false
unfolding collapse
runs-collapse x String.[] = refl
runs-collapse x (String.◌∷◌ c s) =
    runs-doubled x (is_char x (code c) && starts (is_char x) s) c (collapse x s)
      (λ e. ap (λ b. is_char x (code c) && b) (starts-collapse (is_char x) x s) ∙ e)
      (runs-collapse x s)

-- A substitution makes no runs of another character.
pub runs-collapse_other : (y x : ℕ) (s : String) → runs y s ≡ false → runs y (collapse x s) ≡ false
unfolding collapse
runs-collapse_other y x String.[] h = refl
runs-collapse_other y x (String.◌∷◌ c s) h =
    runs-doubled y (is_char x (code c) && starts (is_char x) s) c (collapse x s)
      (λ e. ap (λ b. is_char y (code c) && b) (starts-collapse (is_char y) x s) ∙ ground (arith, h))
      (runs-collapse_other y x s (ground (arith, h)))

kept_whole :
    (t : Bool) (c : Char) (rest : String) → t ≡ false → unless_doubled t c rest ≡ String.◌∷◌ c rest
kept_whole true c rest h = absurd (cc (h))
kept_whole false c rest h = refl

-- A text without runs is its own substitute.
pub collapse_same : (x : ℕ) (s : String) → runs x s ≡ false → collapse x s ≡ s
unfolding collapse
collapse_same x String.[] h = refl
collapse_same x (String.◌∷◌ c s) h =
    kept_whole (is_char x (code c) && starts (is_char x) s) c (collapse x s) (ground (arith, h))
    ∙ ap (String.◌∷◌ c) (collapse_same x s (ground (arith, h)))
