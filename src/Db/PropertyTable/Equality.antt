-- ===== src/Db/PropertyTable/Equality.antt =====
-- `_property_rows_equal`: the comparison of a row and the columns of a payload.
use text.Mathlib.Text.{◌==◌ as str_eq}
use text.Mathlib.TextEquality.{eq_iff}
use text.Mathlib.TextPositions.{eq_refl}
use dbirth.Base.{
  if◌then◌else◌, ℕ, ◌≡◌, refl, ap, sym, ◌∙◌, arith, Bool, true, false, not, ◌&&◌, Option, none,
  some, ◌==◌,
}
use dbirth.Db.Properties.{PropertyType, int, long, float, double, string, boolean}
use dbirth.Db.PropertyTable.{Row}

-- equality of the values of the columns that are not texts or Booleans
pub record Comparable (N F : Type 0) : Type 0 where
  pub same_number : N → N → Bool
  pub same_float : F → F → Bool

abbrev same_boolean : Bool → Bool → Bool
same_boolean true b = b
same_boolean false b = not b

abbrev same_option : {A : Type 0} → (A → A → Bool) → Option A → Option A → Bool
same_option same none none = true
same_option same (some a) (some b) = same a b
same_option same a b = false

abbrev place_of : PropertyType → ℕ
place_of int = 0
place_of long = 1
place_of float = 2
place_of double = 3
place_of string = 4
place_of boolean = 5

-- `_property_rows_equal`
unfoldable pub property_rows_equal : {N F : Type 0} → Comparable N F → Row N F → Row N F → Bool
property_rows_equal e a b =
    place_of a.type == place_of b.type
    && (same_option e.same_number a.columns.value_int b.columns.value_int
        && (same_option e.same_number a.columns.value_long b.columns.value_long
            && (same_option e.same_float a.columns.value_float b.columns.value_float
                && (same_option e.same_float a.columns.value_double b.columns.value_double
                    && (same_option str_eq a.columns.value_string b.columns.value_string
                        && same_option same_boolean a.columns.value_bool b.columns.value_bool)))))

-- The rows have one type and the same columns; floats are compared as the table does it.
pub record Matches {N F : Type 0} (e : Comparable N F) (a b : Row N F) : Type 0 where
  pub type : a.type ≡ b.type
  pub int : a.columns.value_int ≡ b.columns.value_int
  pub long : a.columns.value_long ≡ b.columns.value_long
  pub float : same_option e.same_float a.columns.value_float b.columns.value_float ≡ true
  pub double : same_option e.same_float a.columns.value_double b.columns.value_double ≡ true
  pub string : a.columns.value_string ≡ b.columns.value_string
  pub bool : a.columns.value_bool ≡ b.columns.value_bool

type_of : ℕ → PropertyType
type_of n =
    if n == 0
    then int
    else if n == 1
    then long
    else if n == 2
    then float
    else if n == 3
    then double
    else if n == 4
    then string
    else boolean

type_of-place_of : (p : PropertyType) → type_of (place_of p) ≡ p
unfolding type_of
type_of-place_of int = refl
type_of-place_of long = refl
type_of-place_of float = refl
type_of-place_of double = refl
type_of-place_of string = refl
type_of-place_of boolean = refl

same_option_exact :
    {A : Type 0} (same : A → A → Bool)
    → ((a b : A) → same a b ≡ true → a ≡ b)
    → (o o' : Option A) → same_option same o o' ≡ true
    → o ≡ o'
same_option_exact same exact none none h = refl
same_option_exact same exact (some a) (some b) h = ap some (exact a b h)
same_option_exact same exact none (some b) h = absurd (cc (h))
same_option_exact same exact (some a) none h = absurd (cc (h))

same_boolean_exact : (a b : Bool) → same_boolean a b ≡ true → a ≡ b
same_boolean_exact true b h = sym h
same_boolean_exact false true h = absurd (cc (h))
same_boolean_exact false false h = refl

number_same : (m n : ℕ) → (m == n) ≡ true → m ≡ n
number_same m n h = ground (arith, h)

both_true : (a b : Bool) → (a && b) ≡ true → (a ≡ true) × (b ≡ true)
both_true true b h = (refl, h)
both_true false b h = absurd (cc (h))

pub property_rows_equal-Matches :
    {N F : Type 0} (e : Comparable N F)
    → ((m n : N) → e.same_number m n ≡ true → m ≡ n)
    → (a b : Row N F) → property_rows_equal e a b ≡ true
    → Matches e a b
unfolding property_rows_equal
property_rows_equal-Matches e exact a b h =
    let (same_type, h₁) = both_true (place_of a.type == place_of b.type) _ h in
    let (same_int, h₂) = both_true _ _ h₁ in
    let (same_long, h₃) = both_true _ _ h₂ in
    let (same_float, h₄) = both_true _ _ h₃ in
    let (same_double, h₅) = both_true _ _ h₄ in
    let (same_string, same_bool) = both_true _ _ h₅ in
    record {
      type =
          sym (type_of-place_of a.type)
          ∙ (ap type_of (number_same _ _ same_type) ∙ type_of-place_of b.type);
      int = same_option_exact e.same_number exact _ _ same_int;
      long = same_option_exact e.same_number exact _ _ same_long;
      float = same_float;
      double = same_double;
      string = same_option_exact str_eq (λ s u q. (eq_iff s u).0 q) _ _ same_string;
      bool = same_option_exact same_boolean same_boolean_exact _ _ same_bool;
    }

same_option_refl :
    {A : Type 0} (same : A → A → Bool)
    → ((a : A) → same a a ≡ true)
    → (o : Option A) → same_option same o o ≡ true
same_option_refl same h none = refl
same_option_refl same h (some a) = h a

same_boolean_refl : (b : Bool) → same_boolean b b ≡ true
same_boolean_refl true = refl
same_boolean_refl false = refl

-- A row is equal to itself, where numbers and floats are.
pub property_rows_equal_refl :
    {N F : Type 0} (e : Comparable N F)
    → ((n : N) → e.same_number n n ≡ true)
    → ((f : F) → e.same_float f f ≡ true)
    → (r : Row N F) → property_rows_equal e r r ≡ true
unfolding property_rows_equal
property_rows_equal_refl e n f r =
    let x = r.columns in
    ground (
      arith,
      same_option_refl e.same_number n x.value_int,
      same_option_refl e.same_number n x.value_long,
      same_option_refl e.same_float f x.value_float,
      same_option_refl e.same_float f x.value_double,
      same_option_refl str_eq eq_refl x.value_string,
      same_option_refl same_boolean same_boolean_refl x.value_bool,
    )
