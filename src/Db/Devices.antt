-- ===== src/Db/Devices.antt =====
-- `upsert_device`. The times that the database keeps of a row are left out; a transaction that fails
-- leaves the rows alone.
use mathlib.Core.Path.{subst}
use text.Mathlib.Text.{◌==◌ as str_eq}
use text.Mathlib.TextPositions.{eq_refl}
use dbirth.Base.{
  ℕ, ◌≡◌, inl, inr, refl, ap, ◌∙◌, String, Bool, true, ◌&&◌, ◌||◌, Option, none, some, arith,
  Bool-cases, if◌then◌else◌,
}
use dbirth.Base.Dict.{nat_key}
use dbirth.Base.Result.{ok}
use dbirth.Db.Table.{
  Table, select_one, update_row, insert_row, select_one-put, select_one-put_found, select_one-holds,
  insert_row-Ends,
}
use dbirth.Db.Upserts.{
  Status, noop, Upserted, finish_update, finish_insert, Stored, Fits, update-Stored, insert_ends,
}

-- `DevicePayload`, and a row of `uns_meta.devices` less its key
pub record Device : Type 0 where
  pub group_id : String
  pub country : String
  pub business_unit : String
  pub plant : String
  pub edge : String
  pub device : String
  pub uns_path : String

-- `_device_rows_equal`
unfoldable pub device_rows_equal : Device → Device → Bool
device_rows_equal a b =
    str_eq a.group_id b.group_id
    && (str_eq a.country b.country
        && (str_eq a.business_unit b.business_unit
            && (str_eq a.plant b.plant
                && (str_eq a.edge b.edge
                    && (str_eq a.device b.device && str_eq a.uns_path b.uns_path)))))

abbrev pub has_path : String → Device → Bool
has_path path row = str_eq row.uns_path path

abbrev pub has_identity : Device → Device → Bool
has_identity payload row =
    str_eq row.group_id payload.group_id
    && (str_eq row.edge payload.edge && str_eq row.device payload.device)

-- `UNIQUE (uns_path)` and `UNIQUE (group_id, edge, device)`
abbrev pub device_conflicts : Device → Device → Bool
device_conflicts a b = has_path a.uns_path b || has_identity a b

-- The table has no other constraint.
abbrev pub device_legal : Device → Bool
device_legal row = true

-- the row is found by its path: `SET group_id, country, business_unit, plant, edge, device`
abbrev pub update_by_path : Device → ℕ → Device → Table Device → Upserted Device
update_by_path payload id existing t =
    let row : Device = record payload { uns_path = existing.uns_path } in
    if device_rows_equal existing payload
    then (ok (noop, id, existing), t)
    else finish_update id row t (update_row device_conflicts device_legal id row t)

-- the row is found by its identity: `SET country, business_unit, plant, uns_path`
abbrev pub update_by_identity : Device → ℕ → Device → Table Device → Upserted Device
update_by_identity payload id existing t =
    let row : Device = record existing {
      country = payload.country;
      business_unit = payload.business_unit;
      plant = payload.plant;
      uns_path = payload.uns_path;
    } in
    finish_update id row t (update_row device_conflicts device_legal id row t)

abbrev pub or_insert : Device → Option (ℕ × Device) → Table Device → Upserted Device
or_insert payload none t =
    finish_insert payload (insert_row device_conflicts device_legal payload t)
or_insert payload (some (id, existing)) t = update_by_identity payload id existing t

abbrev pub or_identity : Device → Option (ℕ × Device) → Table Device → Upserted Device
or_identity payload none t = or_insert payload (select_one (has_identity payload) t.rows) t
or_identity payload (some (id, existing)) t = update_by_path payload id existing t

unfoldable pub upsert_device : Device → Table Device → Upserted Device
unfolding device_rows_equal
upsert_device payload t = or_identity payload (select_one (has_path payload.uns_path) t.rows) t

abbrev pub DeviceStored : Device → Table Device → Upserted Device → Type 0
DeviceStored payload t r =
    Stored (has_path payload.uns_path) (λ row. device_rows_equal row payload) t r

module _ (payload : Device) (t : Table Device) where
  abbrev DeviceFits : ℕ → Device → Type 0
  DeviceFits id row = Fits (has_path payload.uns_path) (λ x. device_rows_equal x payload) t id row

  equal_refl : device_rows_equal payload payload ≡ true
  unfolding device_rows_equal
  equal_refl = simp (eq_refl)

  path_equal :
      (id : ℕ) (existing : Device)
      → select_one (has_path payload.uns_path) t.rows ≡ some (id, existing)
      → DeviceFits id (record payload { uns_path = existing.uns_path })
  unfolding device_rows_equal
  path_equal id existing e =
      let holds = select_one-holds (has_path payload.uns_path) id existing t.rows e in
      record {
        found =
            select_one-put_found (has_path payload.uns_path) id
              (record payload { uns_path = existing.uns_path }) existing t.rows holds e;
        same = simp (eq_refl, holds);
      }

  identity_equal :
      (id : ℕ) (existing : Device)
      → select_one (has_path payload.uns_path) t.rows ≡ none
      → select_one (has_identity payload) t.rows ≡ some (id, existing)
      → DeviceFits id (record existing {
        country = payload.country;
        business_unit = payload.business_unit;
        plant = payload.plant;
        uns_path = payload.uns_path;
      })
  unfolding device_rows_equal
  identity_equal id existing absent e =
      let holds = select_one-holds (has_identity payload) id existing t.rows e in
      record {
        found =
            select_one-put (has_path payload.uns_path) id
              (record existing {
                country = payload.country;
                business_unit = payload.business_unit;
                plant = payload.plant;
                uns_path = payload.uns_path;
              })
              t.rows (eq_refl payload.uns_path) absent;
        same = ground (
          arith,
          holds,
          eq_refl payload.country,
          eq_refl payload.business_unit,
          eq_refl payload.plant,
          eq_refl payload.uns_path,
        );
      }

  by_identity :
      (found : Option (ℕ × Device))
      → select_one (has_path payload.uns_path) t.rows ≡ none
      → select_one (has_identity payload) t.rows ≡ found
      → DeviceStored payload t (or_insert payload found t)
  by_identity none absent e =
      insert_ends device_conflicts device_legal (has_path payload.uns_path)
        (λ x. device_rows_equal x payload) t payload
        (insert_row device_conflicts device_legal payload t)
        (record {
          found =
              select_one-put (has_path payload.uns_path) t.next_id payload t.rows
                (eq_refl payload.uns_path) absent;
          same = equal_refl;
        })
        (insert_row-Ends device_conflicts device_legal payload t)
  by_identity (some (id, existing)) absent e =
      update-Stored device_conflicts device_legal (has_path payload.uns_path)
        (λ x. device_rows_equal x payload) t id
        (record existing {
          country = payload.country;
          business_unit = payload.business_unit;
          plant = payload.plant;
          uns_path = payload.uns_path;
        })
        (identity_equal id existing absent e)

  by_path :
      (found : Option (ℕ × Device))
      → select_one (has_path payload.uns_path) t.rows ≡ found
      → DeviceStored payload t (or_identity payload found t)
  by_path none e = by_identity (select_one (has_identity payload) t.rows) e refl
  by_path (some (id, existing)) e = elim (Bool-cases (device_rows_equal existing payload)) [
    | inl same ↦ rw (same) (e, same, λ j n. refl, λ h. refl)
    | inr differ ↦ rw (differ) (
        update-Stored device_conflicts device_legal (has_path payload.uns_path)
          (λ x. device_rows_equal x payload) t id (record payload { uns_path = existing.uns_path })
          (path_equal id existing e))
  ]

-- A device upsert that fails leaves the rows as they were. One that returns leaves, under the path
-- of the payload, one row that the payload equals, which is the row that it returns; all other rows
-- are as they were, and after a noop the whole table is.
pub upsert_device-Stored :
    (payload : Device) (t : Table Device) → DeviceStored payload t (upsert_device payload t)
unfolding upsert_device
upsert_device-Stored payload t =
    by_path payload t (select_one (has_path payload.uns_path) t.rows) refl

-- An upsert of a payload right after one of it that returned is a noop: it gives the same row, and
-- changes nothing.
pub upsert_device_again :
    (payload : Device) (t t' : Table Device) (status : Status) (id : ℕ) (row : Device)
    → upsert_device payload t ≡ (ok (status, id, row), t')
    → upsert_device payload t' ≡ (ok (noop, id, row), t')
unfolding upsert_device
upsert_device_again payload t t' status id row e =
    let stored : DeviceStored payload t (ok (status, id, row), t') =
      subst (DeviceStored payload t) e (upsert_device-Stored payload t) in
    ap (λ f. or_identity payload f t') stored.0 ∙ rw (stored.1) refl
