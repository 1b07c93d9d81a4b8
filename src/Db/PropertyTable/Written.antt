-- ===== src/Db/PropertyTable/Written.antt =====
-- What `upsert_metric_properties_bulk` leaves in the table, and a second run of it.
use dbirth.Base.{ℕ, ◌≡◌, ◌==◌, refl, Bool, true, false, List, [], ◌∷◌, some, All}
use dbirth.Base.Dict.{Dict, keys, get, contains}
use dbirth.Base.Result.{ok}
use dbirth.Db.Properties.{Conversions}
use dbirth.Db.PropertyTable.Grouping.{grouped-IsDistinct}
use dbirth.Db.PropertyTable.Equality.{
  Comparable, Matches, property_rows_equal, property_rows_equal_refl, property_rows_equal-Matches,
}
use dbirth.Db.PropertyTable.Bulk.{Stored}
use dbirth.Base.Options.{◌>>=◌}
use dbirth.Db.PropertyTable.Last.{last_of, rows-last_of}
use dbirth.Db.PropertyTable.Again.{again_sized}
use dbirth.Db.PropertyTable.{
  PropertyPayload, PropertyKey, property_key, Row, group_from, row_of, all_rows,
  upsert_metric_properties_bulk,
}

-- the table has a row of the key that matches
pub record Found {N F : Type 0} (e : Comparable N F) (t : Dict PropertyKey (Row N F))
    (r : PropertyKey × Row N F) : Type 0 where
  pub row : Row N F
  pub found : get r.0 t ≡ some row
  pub matches : Matches e row r.1

-- each of the rows is in the table, and what the table has of another key is as before
pub record Written {N F : Type 0} (e : Comparable N F) (rows : List (PropertyKey × Row N F))
    (t t' : Dict PropertyKey (Row N F)) : Type 0 where
  pub stored : All (Found e t') rows
  pub others : (j : PropertyKey) → contains j (keys rows) ≡ false → get j t' ≡ get j t

Stored-Found :
    {V N F : Type 0} (c : Conversions V N F) (e : Comparable N F) (known : ℕ → Bool)
    → ((a b : N) → e.same_number a b ≡ true → a ≡ b)
    → (t : Dict PropertyKey (Row N F)) (rows : List (PropertyKey × Row N F))
    → All (λ r. Stored c (property_rows_equal e) known r t) rows
    → All (Found e t) rows
Stored-Found c e known exact t [] h = tt
Stored-Found c e known exact t (r ∷ rows) h = (
  record {
    row = h.0.row;
    found = h.0.found;
    matches = property_rows_equal-Matches e exact h.0.row r.1 h.0.same;
  },
  Stored-Found c e known exact t rows h.1,
)

-- If a bulk upsert returns, then rows were made of the payloads: under each key that of the last payload
-- with this key, and none under a key that no payload has. The table has each of these rows under its
-- key, of the same type and with the same columns, floats as far as the comparison of floats tells,
-- and what it has under other keys is as before. A second bulk upsert of the same payloads, with
-- batches of the same size, returns zero and leaves the table as it is, whatever that size and however
-- often a key comes.
pub upsert_metric_properties_bulk_again :
    {V N F : Type 0} (c : Conversions V N F) (e : Comparable N F) (known : ℕ → Bool)
    → ((a : N) → e.same_number a a ≡ true)
    → ((a b : N) → e.same_number a b ≡ true → a ≡ b)
    → ((f : F) → e.same_float f f ≡ true)
    → (size : ℕ) (payloads : List (PropertyPayload V)) (n : ℕ) (t t' : Dict PropertyKey (Row N F))
    → upsert_metric_properties_bulk c (property_rows_equal e) known size payloads t ≡ (ok n, t')
    → (rows : List (PropertyKey × Row N F)) × (all_rows c (group_from payloads []) ≡ some rows)
      × ((k : PropertyKey) → get k rows ≡ (last_of k payloads >>= row_of c))
      × Written e rows t t'
      × (upsert_metric_properties_bulk c (property_rows_equal e) known size payloads t'
          ≡ (ok 0, t'))
unfolding upsert_metric_properties_bulk
upsert_metric_properties_bulk_again c e known number exact float size payloads n t t' returned =
    let (rows, made, placed, again) =
      again_sized c (property_rows_equal e) known (property_rows_equal_refl e number float) size
        (size == 0) (all_rows c (group_from payloads [])) n t t' refl
        (grouped-IsDistinct c payloads) returned in
    (
      rows,
      made,
      λ k. rows-last_of c payloads rows k made,
      record {
        stored = Stored-Found c e known exact t' rows placed.stored;
        others = placed.others;
      },
      again,
    )
