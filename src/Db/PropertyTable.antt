-- ===== src/Db/PropertyTable.antt =====
-- The table of metric properties: `upsert_metric_property` and `upsert_metric_properties_bulk`. The
-- times that the database keeps of a row are left out; a statement that fails leaves the rows alone.
pub mod Equality
pub mod Single
pub mod Grouping
pub mod Bulk
pub mod Again
pub mod Last
pub mod Written
use Prim.Native.String
use dbirth.Base.{
  ℕ, zero, suc, ◌+◌, ◌≡◌, refl, ap, ◌∙◌, String, Bool, true, false, not, ◌&&◌, Option, none, some,
  List, [], ◌∷◌, ◌++◌, ◌==◌, if◌then◌else◌, length, take, drop,
}
use dbirth.Base.Dict.{Hashable, Dict, get, put, contains, nat_key, string_key, String-discrete}
use dbirth.Base.Options.{◌>>=◌}
use dbirth.Base.Result.{Result, ok, err}
use dbirth.Db.Properties.{
  Columns, Conversions, PropertyType, allowed, property_column_values, is_legal,
}
use native.Mathlib.Decide.{ℕ_discrete}

-- `MetricPropertyPayload`; a value that is None is none
pub record PropertyPayload (V : Type 0) : Type 0 where
  pub metric_id : ℕ
  pub key : String
  pub type : String
  pub value : Option V

-- `PRIMARY KEY (metric_id, key)`
pub record PropertyKey : Type 0 where
  pub metric_id : ℕ
  pub key : String

both_same :
    (a b : PropertyKey) → Dec (a.metric_id ≡ b.metric_id) → Dec (a.key ≡ b.key) → Dec (a ≡ b)
both_same a b (yes p) (yes q) =
    yes (ap (λ i. record a { metric_id = i }) p ∙ ap (λ k. record b { key = k }) q)
both_same a b (no n) q = no (λ e. n (ap (λ k. k.metric_id) e))
both_same a b (yes p) (no n) = no (λ e. n (ap (λ k. k.key) e))

unfoldable pub PropertyKey-discrete : Discrete PropertyKey
unfolding both_same
PropertyKey-discrete a b =
    both_same a b (ℕ_discrete a.metric_id b.metric_id) (String-discrete a.key b.key)

instance abbrev pub property_key : Hashable PropertyKey
property_key = record { same = PropertyKey-discrete }

-- a row of `uns_meta.metric_properties` less its key
pub record Row (N F : Type 0) : Type 0 where
  pub type : PropertyType
  pub columns : Columns N F

pub data PropertyError : Type 0 where
  bad_batch_size invalid_property refused : PropertyError

abbrev pub key_of : {V : Type 0} → PropertyPayload V → PropertyKey
key_of p = record { metric_id = p.metric_id; key = p.key }

module _ {V : Type 0} where
  abbrev pub value_or_empty :
      Option (Dict String (PropertyPayload V)) → Dict String (PropertyPayload V)
  value_or_empty none = []
  value_or_empty (some m) = m

  -- `grouped.setdefault(payload.metric_id, {})[payload.key] = payload`
  unfoldable pub add_to_group :
      PropertyPayload V
      → Dict ℕ (Dict String (PropertyPayload V))
      → Dict ℕ (Dict String (PropertyPayload V))
  add_to_group p grouped =
      put p.metric_id (put p.key p (value_or_empty (get p.metric_id grouped))) grouped

  unfoldable pub group_from :
      List (PropertyPayload V)
      → Dict ℕ (Dict String (PropertyPayload V))
      → Dict ℕ (Dict String (PropertyPayload V))
  unfolding add_to_group
  group_from [] grouped = grouped
  group_from (p ∷ ps) grouped = group_from ps (add_to_group p grouped)

module _ {V N F : Type 0} (c : Conversions V N F) where
  abbrev with_type : Option PropertyType → Option (Columns N F) → Option (Row N F)
  with_type (some t) (some x) = some (record { type = t; columns = x })
  with_type t x = none

  -- the row of a payload; none is an exception, of `_property_column_values` or of a conversion
  unfoldable pub row_of : PropertyPayload V → Option (Row N F)
  unfolding allowed property_column_values
  row_of p = with_type (allowed p.type) (property_column_values c p.type p.value)

  unfoldable pub group_rows :
      ℕ → Dict String (PropertyPayload V) → Option (List (PropertyKey × Row N F))
  unfolding row_of
  group_rows id [] = some []
  group_rows id (e ∷ es) = do
    row ← row_of e.1
    rest ← group_rows id es
    some ((record { metric_id = id; key = e.0 }, row) ∷ rest)

  -- `rows`
  unfoldable pub all_rows :
      Dict ℕ (Dict String (PropertyPayload V)) → Option (List (PropertyKey × Row N F))
  unfolding group_rows
  all_rows [] = some []
  all_rows (e ∷ es) = do rows ← group_rows e.0 e.1; rest ← all_rows es; some (rows ++ rest)

  abbrev pub keeps_check : Row N F → Bool
  keeps_check row = is_legal c row.type row.columns

  -- `equal` is the comparison of two rows, and `known` says which metrics there are
  module _ (equal : Row N F → Row N F → Bool) (known : ℕ → Bool) where
    abbrev pub place_beside :
        Option (Row N F)
        → PropertyKey
        → Row N F
        → Dict PropertyKey (Row N F)
        → Option (ℕ × Dict PropertyKey (Row N F))
    place_beside none k row t = if known k.metric_id then some (1, put k row t) else none
    place_beside (some existing) k row t =
        some (if equal existing row then (0, t) else (1, put k row t))

    -- one row of `INSERT ... ON CONFLICT (metric_id, key) DO UPDATE ... WHERE ...`: the check constraint
    -- comes first, and a row that the statement has met is refused
    abbrev pub place :
        List PropertyKey
        → PropertyKey
        → Row N F
        → Dict PropertyKey (Row N F)
        → Option (ℕ × Dict PropertyKey (Row N F))
    place met k row t =
        if keeps_check row && not (contains k met) then place_beside (get k t) k row t else none

    -- the statement: how many rows were written, and the table
    unfoldable pub place_all :
        List PropertyKey
        → List (PropertyKey × Row N F)
        → Dict PropertyKey (Row N F)
        → Option (ℕ × Dict PropertyKey (Row N F))
    place_all met [] t = some (0, t)
    place_all met (r ∷ rs) t = do
      one ← place met r.0 r.1 t
      rest ← place_all (r.0 ∷ met) rs one.1
      some (one.0 + rest.0, rest.1)

    -- `for start in range(0, len(rows), batch_size)`, with at most as many rounds as there are rows
    unfoldable pub place_batches :
        ℕ
        → ℕ
        → List (PropertyKey × Row N F)
        → Dict PropertyKey (Row N F)
        → Option (ℕ × Dict PropertyKey (Row N F))
    unfolding place_all
    place_batches zero size rows t = some (0, t)
    place_batches (suc fuel) size [] t = some (0, t)
    place_batches (suc fuel) size (r ∷ rs) t = do
      one ← place_all [] (take size (r ∷ rs)) t
      rest ← place_batches fuel size (drop size (r ∷ rs)) one.1
      some (one.0 + rest.0, rest.1)

    abbrev pub bulk_ended :
        Dict PropertyKey (Row N F)
        → Option (ℕ × Dict PropertyKey (Row N F))
        → Result PropertyError ℕ × Dict PropertyKey (Row N F)
    bulk_ended t none = (err refused, t)
    bulk_ended t (some r) = (ok r.0, r.1)

    abbrev pub bulk_rows :
        ℕ
        → Option (List (PropertyKey × Row N F))
        → Dict PropertyKey (Row N F)
        → Result PropertyError ℕ × Dict PropertyKey (Row N F)
    bulk_rows size none t = (err invalid_property, t)
    bulk_rows size (some rows) t = bulk_ended t (place_batches (length rows) size rows t)

    -- `upsert_metric_properties_bulk`, in its transaction
    unfoldable pub upsert_metric_properties_bulk :
        ℕ
        → List (PropertyPayload V)
        → Dict PropertyKey (Row N F)
        → Result PropertyError ℕ × Dict PropertyKey (Row N F)
    unfolding group_from all_rows place_batches
    upsert_metric_properties_bulk size payloads t =
        if size == 0
        then (err bad_batch_size, t)
        else bulk_rows size (all_rows (group_from payloads [])) t
