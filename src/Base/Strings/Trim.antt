-- ===== src/Base/Strings/Trim.antt =====
-- `strip`, with either end looked at by a test: what it takes away, and what it leaves.
use Prim.Native.Char.{Char, code}
use Prim.Native.String.{String}
use Prim.Native.Nat.{ℕ}
use mathlib.Core.Path.{◌≡◌, refl, ◌∙◌, ap}
use mathlib.Core.Bool.{Bool, true, false, ◌&&◌, ◌||◌}
use native.Mathlib.Omega.{arith}
use dbirth.Base.Tests.{◌==◌}
use dbirth.Base.Strings.{all_chars, lstrip, rstrip, strip_chars, keep_left, keep_right}

-- the first character passes a test
abbrev pub starts : (ℕ → Bool) → String → Bool
starts test String.[] = false
starts test (String.◌∷◌ c s) = test (code c)

-- the last character passes a test
abbrev pub ends : (ℕ → Bool) → String → Bool
ends test String.[] = false
ends test (String.◌∷◌ c String.[]) = test (code c)
ends test (String.◌∷◌ c (String.◌∷◌ d s)) = ends test (String.◌∷◌ d s)

abbrev pub is_char : ℕ → ℕ → Bool
is_char x c = c == x

-- a character stands beside itself
abbrev pub runs : ℕ → String → Bool
runs x String.[] = false
runs x (String.◌∷◌ c s) = (is_char x (code c) && starts (is_char x) s) || runs x s

module _ (test : ℕ → Bool) where
  left_same :
      (t : Bool) (c : Char) (s : String)
      → t ≡ false
      → keep_left t (lstrip test s) (String.◌∷◌ c s) ≡ String.◌∷◌ c s
  left_same true c s h = ground (arith, h)
  left_same false c s h = refl

  pub lstrip_same : (s : String) → starts test s ≡ false → lstrip test s ≡ s
  lstrip_same String.[] h = refl
  lstrip_same (String.◌∷◌ c s) h = left_same (test (code c)) c s h

  right_same : (t : Bool) (c : Char) → t ≡ false → keep_right t c "" ≡ String.◌∷◌ c ""
  right_same true c h = ground (arith, h)
  right_same false c h = refl

  right_more :
      (t : Bool) (c d : Char) (s : String)
      → keep_right t c (String.◌∷◌ d s) ≡ String.◌∷◌ c (String.◌∷◌ d s)
  right_more true c d s = refl
  right_more false c d s = refl

  pub rstrip_same : (s : String) → ends test s ≡ false → rstrip test s ≡ s
  rstrip_same String.[] h = refl
  rstrip_same (String.◌∷◌ c String.[]) h = right_same (test (code c)) c h
  rstrip_same (String.◌∷◌ c (String.◌∷◌ d s)) h =
      ap (keep_right (test (code c)) c) (rstrip_same (String.◌∷◌ d s) h)
      ∙ right_more (test (code c)) c d s

  pub strip_same :
      (s : String) → starts test s ≡ false → ends test s ≡ false → strip_chars test s ≡ s
  strip_same s h k = rw (lstrip_same s h) (rstrip_same s k)

  starts-left :
      (t : Bool) (c : Char) (s rest : String)
      → test (code c) ≡ t
      → starts test rest ≡ false
      → starts test (keep_left t rest (String.◌∷◌ c s)) ≡ false
  starts-left true c s rest e h = h
  starts-left false c s rest e h = e

  starts-lstrip : (s : String) → starts test (lstrip test s) ≡ false
  starts-lstrip String.[] = refl
  starts-lstrip (String.◌∷◌ c s) =
      starts-left (test (code c)) c s (lstrip test s) refl (starts-lstrip s)

  ends-right :
      (t : Bool) (c : Char) (s : String)
      → test (code c) ≡ t
      → ends test s ≡ false
      → ends test (keep_right t c s) ≡ false
  ends-right true c String.[] e h = refl
  ends-right true c (String.◌∷◌ d s) e h = h
  ends-right false c String.[] e h = e
  ends-right false c (String.◌∷◌ d s) e h = h

  ends-rstrip : (s : String) → ends test (rstrip test s) ≡ false
  ends-rstrip String.[] = refl
  ends-rstrip (String.◌∷◌ c s) = ends-right (test (code c)) c (rstrip test s) refl (ends-rstrip s)

  starts-right :
      (other : ℕ → Bool) (t : Bool) (c : Char) (s : String)
      → other (code c) ≡ false
      → starts other (keep_right t c s) ≡ false
  starts-right other true c String.[] h = refl
  starts-right other true c (String.◌∷◌ d s) h = h
  starts-right other false c s h = h

  pub starts-rstrip :
      (other : ℕ → Bool) (s : String)
      → starts other s ≡ false
      → starts other (rstrip test s) ≡ false
  starts-rstrip other String.[] h = refl
  starts-rstrip other (String.◌∷◌ c s) h = starts-right other (test (code c)) c (rstrip test s) h

  pub starts-strip : (s : String) → starts test (strip_chars test s) ≡ false
  starts-strip s = starts-rstrip test (lstrip test s) (starts-lstrip s)

  pub ends-strip : (s : String) → ends test (strip_chars test s) ≡ false
  ends-strip s = ends-rstrip (lstrip test s)

  -- what stands between the ends keeps its characters and gets no new neighbours
  chars-left :
      (good : ℕ → Bool) (t : Bool) (c : Char) (s rest : String)
      → all_chars good (String.◌∷◌ c s) ≡ true
      → all_chars good rest ≡ true
      → all_chars good (keep_left t rest (String.◌∷◌ c s)) ≡ true
  chars-left good true c s rest h k = k
  chars-left good false c s rest h k = h

  chars-lstrip :
      (good : ℕ → Bool) (s : String)
      → all_chars good s ≡ true
      → all_chars good (lstrip test s) ≡ true
  chars-lstrip good String.[] h = refl
  chars-lstrip good (String.◌∷◌ c s) h =
      chars-left good (test (code c)) c s (lstrip test s) h
        (chars-lstrip good s (ground (arith, h)))

  chars-right :
      (good : ℕ → Bool) (t : Bool) (c : Char) (s : String)
      → good (code c) ≡ true
      → all_chars good s ≡ true
      → all_chars good (keep_right t c s) ≡ true
  chars-right good true c String.[] h k = refl
  chars-right good true c (String.◌∷◌ d s) h k = ground (arith, h, k)
  chars-right good false c s h k = ground (arith, h, k)

  chars-rstrip :
      (good : ℕ → Bool) (s : String)
      → all_chars good s ≡ true
      → all_chars good (rstrip test s) ≡ true
  chars-rstrip good String.[] h = refl
  chars-rstrip good (String.◌∷◌ c s) h =
      chars-right good (test (code c)) c (rstrip test s) (ground (arith, h))
        (chars-rstrip good s (ground (arith, h)))

  pub all_chars-strip :
      (good : ℕ → Bool) (s : String)
      → all_chars good s ≡ true
      → all_chars good (strip_chars test s) ≡ true
  all_chars-strip good s h = chars-rstrip good (lstrip test s) (chars-lstrip good s h)

  runs-left :
      (x : ℕ) (t : Bool) (c : Char) (s rest : String)
      → runs x (String.◌∷◌ c s) ≡ false
      → runs x rest ≡ false
      → runs x (keep_left t rest (String.◌∷◌ c s)) ≡ false
  runs-left x true c s rest h k = k
  runs-left x false c s rest h k = h

  runs-lstrip : (x : ℕ) (s : String) → runs x s ≡ false → runs x (lstrip test s) ≡ false
  runs-lstrip x String.[] h = refl
  runs-lstrip x (String.◌∷◌ c s) h =
      runs-left x (test (code c)) c s (lstrip test s) h (runs-lstrip x s (ground (arith, h)))

  runs-right :
      (x : ℕ) (t : Bool) (c : Char) (s : String)
      → (is_char x (code c) && starts (is_char x) s) ≡ false
      → runs x s ≡ false
      → runs x (keep_right t c s) ≡ false
  runs-right x true c String.[] h k = refl
  runs-right x true c (String.◌∷◌ d s) h k = ground (arith, h, k)
  runs-right x false c s h k = ground (arith, h, k)

  beside :
      (x : ℕ) (b : Bool) (s : String)
      → (b && starts (is_char x) s) ≡ false
      → (b && starts (is_char x) (rstrip test s)) ≡ false
  beside x true s h = starts-rstrip (is_char x) s h
  beside x false s h = refl

  runs-rstrip : (x : ℕ) (s : String) → runs x s ≡ false → runs x (rstrip test s) ≡ false
  runs-rstrip x String.[] h = refl
  runs-rstrip x (String.◌∷◌ c s) h =
      runs-right x (test (code c)) c (rstrip test s)
        (beside x (is_char x (code c)) s (ground (arith, h))) (runs-rstrip x s (ground (arith, h)))

  pub runs-strip : (x : ℕ) (s : String) → runs x s ≡ false → runs x (strip_chars test s) ≡ false
  runs-strip x s h = runs-rstrip x (lstrip test s) (runs-lstrip x s h)
