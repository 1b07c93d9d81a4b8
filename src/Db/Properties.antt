-- ===== src/Db/Properties.antt =====
-- The columns of a metric property (`_property_column_values`, `_property_rows_equal`). The values
-- of a payload are of any type: `int`, `float`, `str` and `bool` on them are parameters, of which the
-- first two may raise.
use mathlib.Core.Path.{subst}
use text.Mathlib.Text.{◌==◌ as str_eq}
use dbirth.Base.{
  ◌≡◌, inl, inr, refl, String, Bool, true, false, ◌&&◌, Option, none, some, arith, if◌then◌else◌,
  Option-cases, not,
}

-- The columns of one row: a value in one, none where it is null.
pub record Columns (N F : Type 0) : Type 0 where
  pub value_int : Option N
  pub value_long : Option N
  pub value_float : Option F
  pub value_double : Option F
  pub value_string : Option String
  pub value_bool : Option Bool

-- Python's conversions, on the values of payloads.
pub record Conversions (V N F : Type 0) : Type 0 where
  pub to_int : V → Option N
  pub to_float : V → Option F
  pub to_str : V → String
  pub to_bool : V → Bool

-- The types of the enumeration, which are the strings that are allowed.
pub data PropertyType : Type 0 where
  int long float double string boolean : PropertyType

unfoldable pub allowed : String → Option PropertyType
allowed type =
    if str_eq type "int"
    then some int
    else if str_eq type "long"
    then some long
    else if str_eq type "float"
    then some float
    else if str_eq type "double"
    then some double
    else if str_eq type "string"
    then some string
    else if str_eq type "boolean"
    then some boolean
    else none

-- `convert(value) if value is not None else None`; the outer none is a raise
abbrev pub convert : {V A : Type 0} → (V → Option A) → Option V → Option (Option A)
convert f none = some none
convert f (some v) = elim (f v) [ none ↦ none | some a ↦ some (some a) ]

module _ {V N F : Type 0} (c : Conversions V N F) where
  abbrev pub nulls : Columns N F
  nulls = record {
    value_int = none;
    value_long = none;
    value_float = none;
    value_double = none;
    value_string = none;
    value_bool = none;
  }

  abbrev pub placed :
      {A : Type 0} → (Option A → Columns N F) → Option (Option A) → Option (Columns N F)
  placed place none = none
  placed place (some a) = some (place a)

  abbrev pub columns_of : PropertyType → Option V → Option (Columns N F)
  columns_of int value = placed (λ a. record nulls { value_int = a }) (convert c.to_int value)
  columns_of long value = placed (λ a. record nulls { value_long = a }) (convert c.to_int value)
  columns_of float value = placed (λ a. record nulls { value_float = a }) (convert c.to_float value)
  columns_of double value =
      placed (λ a. record nulls { value_double = a }) (convert c.to_float value)
  columns_of string value =
      placed (λ a. record nulls { value_string = a }) (convert (λ v. some (c.to_str v)) value)
  columns_of boolean value =
      placed (λ a. record nulls { value_bool = a }) (convert (λ v. some (c.to_bool v)) value)

  -- `_property_column_values`; none is a raise, of `RepositoryError` or of a conversion
  unfoldable pub property_column_values : String → Option V → Option (Columns N F)
  unfolding allowed
  property_column_values type value = elim (allowed type) [
    | none ↦ none
    | some t ↦ columns_of t value
  ]

  -- The check constraint of the table: the column of the type is not null, and all others are.
  abbrev pub is_null : {A : Type 0} → Option A → Bool
  is_null none = true
  is_null (some _) = false

  abbrev pub is_legal : PropertyType → Columns N F → Bool
  is_legal int x =
      not (is_null x.value_int)
      && (is_null x.value_long
          && (is_null x.value_float
              && (is_null x.value_double && (is_null x.value_string && is_null x.value_bool))))
  is_legal long x =
      not (is_null x.value_long)
      && (is_null x.value_int
          && (is_null x.value_float
              && (is_null x.value_double && (is_null x.value_string && is_null x.value_bool))))
  is_legal float x =
      not (is_null x.value_float)
      && (is_null x.value_int
          && (is_null x.value_long
              && (is_null x.value_double && (is_null x.value_string && is_null x.value_bool))))
  is_legal double x =
      not (is_null x.value_double)
      && (is_null x.value_int
          && (is_null x.value_long
              && (is_null x.value_float && (is_null x.value_string && is_null x.value_bool))))
  is_legal string x =
      not (is_null x.value_string)
      && (is_null x.value_int
          && (is_null x.value_long
              && (is_null x.value_float && (is_null x.value_double && is_null x.value_bool))))
  is_legal boolean x =
      not (is_null x.value_bool)
      && (is_null x.value_int
          && (is_null x.value_long
              && (is_null x.value_float && (is_null x.value_double && is_null x.value_string))))

  -- Without a value there is nothing in any column.
  abbrev pub NullFor : Option V → Columns N F → Type 0
  NullFor none x = x ≡ nulls
  NullFor (some v) x = Unit

  abbrev LegalFor : PropertyType → Option V → Option (Columns N F) → Type 0
  LegalFor t value none = Unit
  LegalFor t value (some x) = (is_legal t x ≡ not (is_null value)) × NullFor value x

  columns_of-LegalFor :
      (t : PropertyType) (value : Option V) → LegalFor t value (columns_of t value)
  columns_of-LegalFor int none = (refl, refl)
  columns_of-LegalFor long none = (refl, refl)
  columns_of-LegalFor float none = (refl, refl)
  columns_of-LegalFor double none = (refl, refl)
  columns_of-LegalFor string none = (refl, refl)
  columns_of-LegalFor boolean none = (refl, refl)
  columns_of-LegalFor int (some v) = ground arith
  columns_of-LegalFor long (some v) = ground arith
  columns_of-LegalFor float (some v) = ground arith
  columns_of-LegalFor double (some v) = ground arith
  columns_of-LegalFor string (some v) = (refl, tt)
  columns_of-LegalFor boolean (some v) = (refl, tt)

  -- The columns that are made for a property keep the check constraint of the table exactly when the
  -- property has a value: its type is one of the allowed ones, its column is filled and all others
  -- are null. For a property without a value all columns are null, and the table refuses them.
  pub property_column_values-IsLegal :
      (type : String) (value : Option V) (x : Columns N F)
      → property_column_values type value ≡ some x
      → (t : PropertyType) × (allowed type ≡ some t)
        × (is_legal t x ≡ not (is_null value))
        × NullFor value x
  unfolding property_column_values
  property_column_values-IsLegal type value x e = elim (Option-cases (allowed type)) [
    | inl no_type ↦ let clash : some x ≡ none = ground (arith, e, no_type) in absurd (cc (clash))
    | inr (t, typed) ↦
        let made : columns_of t value ≡ some x = ground (arith, e, typed) in
        let (legal, null) = subst (LegalFor t value) made (columns_of-LegalFor t value) in
        (t, typed, legal, null)
  ]
