-- ===== src/Birth/Frames/Payloads.antt =====
-- The properties that a frame gives, beside the columns that the repository makes of them.
use mathlib.Core.Path.{subst}
use dbirth.Base.{
  ℕ, ◌<◌, ◌^◌, String, Bool, true, false, ◌≡◌, refl, ap, arith, Option, none, some, leb→le,
  if◌then◌else◌,
}
use dbirth.Base.Strings.{is_empty, strip}
use dbirth.Birth.Frames.{PropertyPayload, fits_int, build_property_payload}
use dbirth.Birth.Payload.{
  ℤ, pos, negsuc, Object, nothing, boolean, integer, floating, string, bytes, mapping, array,
}
use dbirth.Db.Properties.{
  Columns, Conversions, PropertyType, int, long, double, string as string_type,
  boolean as boolean_type, allowed, property_column_values, is_legal, nulls, placed,
}

-- Python's conversions on the objects that payloads have: an integer is its own `int`, a float its own
-- `float`, a text its own `str` and a Boolean its own `bool`.
pub record Converts {F : Type 0} (c : Conversions (Object F) ℤ F) : Type 0 where
  pub int_of : (z : ℤ) → c.to_int (integer z) ≡ some z
  pub float_of : (f : F) → c.to_float (floating f) ≡ some f
  pub str_of : (s : String) → c.to_str (string s) ≡ s
  pub bool_of : (b : Bool) → c.to_bool (boolean b) ≡ b

-- The value is at least -2 ^ 31 and less than 2 ^ 31.
abbrev pub IsInt32 : ℤ → Type 0
IsInt32 (pos n) = n < 2 ^ 31
IsInt32 (negsuc n) = n < 2 ^ 31

abbrev pub Int32 : Option ℤ → Type 0
Int32 none = Unit
Int32 (some z) = IsInt32 z

-- The value is at least -2 ^ 63 and less than 2 ^ 63.
abbrev pub IsInt64 : ℤ → Type 0
IsInt64 (pos n) = n < 2 ^ 63
IsInt64 (negsuc n) = n < 2 ^ 63

abbrev pub Int64 : Option ℤ → Type 0
Int64 none = Unit
Int64 (some z) = IsInt64 z

-- An integer has no more than 64 bits.
abbrev pub FitsLong : {F : Type 0} → Object F → Type 0
FitsLong (integer z) = IsInt64 z
FitsLong o = Unit

-- the columns that the repository makes of a payload: they keep the check constraint of the table, and
-- the columns of 32 and of 64 bits hold their numbers
pub record Storable {F : Type 0} (c : Conversions (Object F) ℤ F) (p : PropertyPayload F)
    : Type 0 where
  pub columns : Columns ℤ F
  pub type : PropertyType
  pub made : property_column_values c p.type (some p.value) ≡ some columns
  pub typed : allowed p.type ≡ some type
  pub legal : is_legal c type columns ≡ true
  pub int_range : Int32 columns.value_int
  pub long_range : Int64 columns.value_long

fits_int-IsInt32 : (z : ℤ) → fits_int z ≡ true → IsInt32 z
unfolding fits_int
fits_int-IsInt32 (pos n) e = let h = leb→le n 2147483647 e in omega (arith, h)
fits_int-IsInt32 (negsuc n) e = let h = leb→le n 2147483647 e in omega (arith, h)

module _ {F : Type 0} (c : Conversions (Object F) ℤ F) (h : Converts c) (id : ℕ)
    (key : String) where
  abbrev row : String → Object F → PropertyPayload F
  row type value = record { metric_id = id; key = key; type = type; value = value }

  boolean-Storable : (b : Bool) → Storable c (row "boolean" (boolean b))
  unfolding property_column_values allowed
  boolean-Storable b = record {
    columns = record (nulls c) { value_bool = some (c.to_bool (boolean b)) };
    type = boolean_type;
    made = refl;
    typed = refl;
    legal = refl;
    int_range = tt;
    long_range = tt;
  }

  string-Storable : (s : String) → Storable c (row "string" (string s))
  unfolding property_column_values allowed
  string-Storable s = record {
    columns = record (nulls c) { value_string = some (c.to_str (string s)) };
    type = string_type;
    made = refl;
    typed = refl;
    legal = refl;
    int_range = tt;
    long_range = tt;
  }

  floating-Storable : (f : F) → Storable c (row "double" (floating f))
  unfolding property_column_values allowed
  floating-Storable f = record {
    columns = record (nulls c) { value_double = some f };
    type = double;
    made =
        ap
          (λ o.
            placed c (λ a. record (nulls c) { value_double = a })
              (elim o [ none ↦ none | some a ↦ some (some a) ]))
          (h.float_of f);
    typed = refl;
    legal = refl;
    int_range = tt;
    long_range = tt;
  }

  integer-Storable :
      (t : Bool) (z : ℤ)
      → fits_int z ≡ t
      → IsInt64 z
      → Storable c (row (if t then "int" else "long") (integer z))
  unfolding property_column_values allowed
  integer-Storable true z e l = record {
    columns = record (nulls c) { value_int = some z };
    type = int;
    made =
        ap
          (λ o.
            placed c (λ a. record (nulls c) { value_int = a })
              (elim o [ none ↦ none | some a ↦ some (some a) ]))
          (h.int_of z);
    typed = refl;
    legal = refl;
    int_range = fits_int-IsInt32 z e;
    long_range = tt;
  }
  integer-Storable false z e l = record {
    columns = record (nulls c) { value_long = some z };
    type = long;
    made =
        ap
          (λ o.
            placed c (λ a. record (nulls c) { value_long = a })
              (elim o [ none ↦ none | some a ↦ some (some a) ]))
          (h.int_of z);
    typed = refl;
    legal = refl;
    int_range = tt;
    long_range = l;
  }

  text-Storable :
      (b : Bool) (s : String) (p : PropertyPayload F)
      → (if b then none else some (row "string" (string s))) ≡ some p
      → Storable c p
  text-Storable true s p e = absurd (cc (e))
  text-Storable false s p e =
      let same : row "string" (string s) ≡ p = cc (e) in subst (Storable c) same (string-Storable s)

  built : (made p : PropertyPayload F) → Storable c made → some made ≡ some p → Storable c p
  built made p k e = let same : made ≡ p = cc (e) in subst (Storable c) same k

  built-Storable :
      (value : Object F) (p : PropertyPayload F)
      → FitsLong value
      → build_property_payload id key value ≡ some p
      → Storable c p
  unfolding build_property_payload
  built-Storable nothing p l e = absurd (cc (e))
  built-Storable (boolean b) p l e = built (row "boolean" (boolean b)) p (boolean-Storable b) e
  built-Storable (integer z) p l e =
      built (row (if fits_int z then "int" else "long") (integer z)) p
        (integer-Storable (fits_int z) z refl l) e
  built-Storable (floating f) p l e = built (row "double" (floating f)) p (floating-Storable f) e
  built-Storable (string s) p l e = text-Storable (is_empty (strip s)) (strip s) p e
  built-Storable (bytes b) p l e = absurd (cc (e))
  built-Storable (mapping es) p l e = absurd (cc (e))
  built-Storable (array is) p l e = absurd (cc (e))

-- If a value is no integer, or one that is at least -2 ^ 63 and less than 2 ^ 63, the payload that the
-- service builds for it fits the table: its type is an allowed one, the repository makes its columns
-- without an error, they keep the check constraint, and a number in the column of 32 bits is at least
-- -2 ^ 31 and less than 2 ^ 31, one in the column of 64 bits at least -2 ^ 63 and less than 2 ^ 63.
pub build_property_payload-Storable :
    {F : Type 0} (c : Conversions (Object F) ℤ F)
    → Converts c
    → (metric_id : ℕ) (key : String) (value : Object F) (p : PropertyPayload F) → FitsLong value
    → build_property_payload metric_id key value ≡ some p
    → Storable c p
build_property_payload-Storable c h metric_id key value p l e =
    built-Storable c h metric_id key value p l e
