-- ===== src/Base/Strings.antt =====
-- Python's string methods, on the native strings: `split`, `join`, `strip` and `replace`, with the
-- characters as code points. What depends on the tables of Unicode is a record of functions.
pub mod Trim
pub mod Words
use Prim.Native.Char.{Char, code}
use Prim.Native.String.{String}
use Prim.Native.String
use Prim.Native.Nat.{ℕ}
use mathlib.Core.Bool.{Bool, true, false, ◌&&◌, ◌||◌, not}
use mathlib.Core.List.{List, [], ◌∷◌, ◌++◌}
use native.Mathlib.Omega.{arith}
use dbirth.Base.Tests.{leb, ◌==◌, if◌then◌else◌}

-- `str.isalnum` of one character, `str.lower`, `str.upper` and `unicodedata.normalize("NFC", text)`
pub record Unicode : Type 0 where
  pub is_alnum : ℕ → Bool
  pub lower : String → String
  pub upper : String → String
  pub nfc : String → String

-- `str.isspace` of one character
unfoldable pub is_space : ℕ → Bool
is_space c =
    c == 32
    || ((leb 9 c && leb c 13)
        || ((leb 28 c && leb c 31)
            || (c == 133
                || (c == 160
                    || (c == 5760
                        || ((leb 8192 c && leb c 8202)
                            || (c == 8232
                                || (c == 8233 || (c == 8239 || (c == 8287 || c == 12288))))))))))

abbrev pub is_empty : String → Bool
is_empty String.[] = true
is_empty (String.◌∷◌ c s) = false

-- every character passes a test on its code point
abbrev pub all_chars : (ℕ → Bool) → String → Bool
all_chars test String.[] = true
all_chars test (String.◌∷◌ c s) = test (code c) && all_chars test s

abbrev pub has_char : ℕ → String → Bool
has_char x String.[] = false
has_char x (String.◌∷◌ c s) = code c == x || has_char x s

abbrev pub prepend : Char → List String → List String
prepend c [] = String.◌∷◌ c String.[] ∷ []
prepend c (w ∷ ws) = String.◌∷◌ c w ∷ ws

abbrev pub cut_at : Bool → Char → List String → List String
cut_at true c rest = "" ∷ rest
cut_at false c rest = prepend c rest

-- `text.split(sep)` for a separator of one character
unfoldable pub split : ℕ → String → List String
split sep String.[] = "" ∷ []
split sep (String.◌∷◌ c s) = cut_at (code c == sep) c (split sep s)

-- `a + b`
infixr 40 ◌<>◌
abbrev pub ◌<>◌ : String → String → String
String.[] <> t = t
(String.◌∷◌ c s) <> t = String.◌∷◌ c (s <> t)

-- `sep.join(words)`
unfoldable pub join : String → List String → String
join sep [] = ""
join sep (w ∷ []) = w
join sep (w ∷ v ∷ ws) = w <> sep <> join sep (v ∷ ws)

-- `text.replace(old, new)` for an old text of one character
unfoldable pub replace : ℕ → String → String → String
replace old new String.[] = ""
replace old new (String.◌∷◌ c s) =
    (if code c == old then new else String.◌∷◌ c String.[]) <> replace old new s

abbrev pub keep_left : Bool → String → String → String
keep_left true rest whole = rest
keep_left false rest whole = whole

abbrev pub lstrip : (ℕ → Bool) → String → String
lstrip test String.[] = ""
lstrip test (String.◌∷◌ c s) =
    let rest = lstrip test s in keep_left (test (code c)) rest (String.◌∷◌ c s)

abbrev pub keep_right : Bool → Char → String → String
keep_right true c String.[] = ""
keep_right true c (String.◌∷◌ d s) = String.◌∷◌ c (String.◌∷◌ d s)
keep_right false c s = String.◌∷◌ c s

abbrev pub rstrip : (ℕ → Bool) → String → String
rstrip test String.[] = ""
rstrip test (String.◌∷◌ c s) = keep_right (test (code c)) c (rstrip test s)

-- `text.strip(chars)`
abbrev pub strip_chars : (ℕ → Bool) → String → String
strip_chars test s = rstrip test (lstrip test s)

-- `text.strip()`
unfoldable pub strip : String → String
unfolding is_space
strip s = strip_chars is_space s
