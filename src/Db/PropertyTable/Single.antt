-- ===== src/Db/PropertyTable/Single.antt =====
-- `upsert_metric_property` over the table of properties.
use dbirth.Base.{ℕ, Bool, true, false, ◌&&◌, Option, none, some, if◌then◌else◌}
use dbirth.Base.Dict.{Dict, get, put}
use dbirth.Base.Result.{Result, ok, err}
use dbirth.Db.Properties.{Conversions}
use dbirth.Db.PropertyTable.{
  PropertyPayload, PropertyKey, property_key, Row, PropertyError, invalid_property, refused, key_of,
  row_of, keeps_check,
}
use dbirth.Db.Upserts.{Status, inserted, updated, noop}

module _ {V N F : Type 0} (c : Conversions V N F) (equal : Row N F → Row N F → Bool)
    (known : ℕ → Bool) where
  abbrev pub update_when :
      Bool
      → PropertyKey
      → Row N F
      → Dict PropertyKey (Row N F)
      → Option (Dict PropertyKey (Row N F))
  update_when false k row t = none
  update_when true k row t = some (put k row t)

  abbrev pub ended :
      {A : Type 0}
      → A
      → Dict PropertyKey (Row N F)
      → Option (Dict PropertyKey (Row N F))
      → Result PropertyError A × Dict PropertyKey (Row N F)
  ended status t none = (err refused, t)
  ended status t (some t') = (ok status, t')

  abbrev pub upsert_beside :
      Option (Row N F)
      → PropertyKey
      → Row N F
      → Dict PropertyKey (Row N F)
      → Result PropertyError Status × Dict PropertyKey (Row N F)
  upsert_beside none k row t =
      ended inserted t (update_when (known k.metric_id && keeps_check c row) k row t)
  upsert_beside (some existing) k row t =
      if equal existing row
      then (ok noop, t)
      else ended updated t (update_when (keeps_check c row) k row t)

  abbrev pub upsert_row :
      Option (Row N F)
      → PropertyKey
      → Dict PropertyKey (Row N F)
      → Result PropertyError Status × Dict PropertyKey (Row N F)
  upsert_row none k t = (err invalid_property, t)
  upsert_row (some row) k t = upsert_beside (get k t) k row t

  -- `upsert_metric_property`; the row that it returns is the one in the table
  unfoldable pub upsert_metric_property :
      PropertyPayload V
      → Dict PropertyKey (Row N F)
      → Result PropertyError Status × Dict PropertyKey (Row N F)
  unfolding row_of
  upsert_metric_property p t = upsert_row (row_of c p) (key_of p) t
