-- ===== src/Db/Metrics.antt =====
-- `upsert_metric`. The times that the database keeps of a row and the identifier that it generates
-- from the path are left out; a transaction that fails leaves the rows alone.
use text.Mathlib.Text.{◌==◌ as str_eq}
use text.Mathlib.TextPositions.{eq_refl}
use dbirth.Base.{
  ℕ, ◌≡◌, inl, inr, refl, String, Bool, true, ◌&&◌, ◌||◌, Option, none, some, List, arith,
  Bool-cases, if◌then◌else◌, ◌==◌,
}
use dbirth.Base.Dict.{contains, nat_key}
use dbirth.Base.Result.{ok}
use dbirth.Db.Table.{
  Table, select_one, update_row, insert_row, select_one-put, select_one-put_found, select_one-holds,
  insert_row-Ends,
}
use dbirth.Db.Upserts.{
  noop, Upserted, finish_update, finish_insert, Stored, Fits, update-Stored, insert_ends,
}

-- `MetricPayload`, and a row of `uns_meta.metrics` less its key
pub record Metric : Type 0 where
  pub device_id : ℕ
  pub name : String
  pub uns_path : String
  pub datatype : String

-- `_metric_rows_equal`
unfoldable pub metric_rows_equal : Metric → Metric → Bool
metric_rows_equal a b =
    a.device_id == b.device_id
    && (str_eq a.name b.name && (str_eq a.uns_path b.uns_path && str_eq a.datatype b.datatype))

abbrev pub has_path : String → Metric → Bool
has_path path row = str_eq row.uns_path path

abbrev pub has_identity : Metric → Metric → Bool
has_identity payload row = row.device_id == payload.device_id && str_eq row.name payload.name

-- `UNIQUE (uns_path)` and `UNIQUE (device_id, name)`
abbrev pub metric_conflicts : Metric → Metric → Bool
metric_conflicts a b = has_path a.uns_path b || has_identity a b

-- the device of a row is one of these
abbrev pub refers : List ℕ → Metric → Bool
refers devices row = contains row.device_id devices

module _ (devices : List ℕ) where
  -- the row is found by its path: `SET device_id, name, datatype`
  abbrev pub update_by_path : Metric → ℕ → Metric → Table Metric → Upserted Metric
  update_by_path payload id existing t =
      let row : Metric = record payload { uns_path = existing.uns_path } in
      if metric_rows_equal existing payload
      then (ok (noop, id, existing), t)
      else finish_update id row t (update_row metric_conflicts (refers devices) id row t)

  -- the row is found by its identity: `SET uns_path, datatype`
  abbrev pub update_by_identity : Metric → ℕ → Metric → Table Metric → Upserted Metric
  update_by_identity payload id existing t =
      let row : Metric = record existing {
        uns_path = payload.uns_path;
        datatype = payload.datatype;
      } in
      finish_update id row t (update_row metric_conflicts (refers devices) id row t)

  abbrev pub or_insert : Metric → Option (ℕ × Metric) → Table Metric → Upserted Metric
  or_insert payload none t =
      finish_insert payload (insert_row metric_conflicts (refers devices) payload t)
  or_insert payload (some (id, existing)) t = update_by_identity payload id existing t

  abbrev pub or_identity : Metric → Option (ℕ × Metric) → Table Metric → Upserted Metric
  or_identity payload none t = or_insert payload (select_one (has_identity payload) t.rows) t
  or_identity payload (some (id, existing)) t = update_by_path payload id existing t

  unfoldable pub upsert_metric : Metric → Table Metric → Upserted Metric
  unfolding metric_rows_equal
  upsert_metric payload t = or_identity payload (select_one (has_path payload.uns_path) t.rows) t

abbrev pub MetricStored : Metric → Table Metric → Upserted Metric → Type 0
MetricStored payload t r =
    Stored (has_path payload.uns_path) (λ row. metric_rows_equal row payload) t r

module _ (devices : List ℕ) (payload : Metric) (t : Table Metric) where
  abbrev MetricFits : ℕ → Metric → Type 0
  MetricFits id row = Fits (has_path payload.uns_path) (λ x. metric_rows_equal x payload) t id row

  abbrev by_identity_row : Metric → Metric
  by_identity_row existing = record existing {
    uns_path = payload.uns_path;
    datatype = payload.datatype;
  }

  equal_refl : metric_rows_equal payload payload ≡ true
  unfolding metric_rows_equal
  equal_refl =
      ground (arith, eq_refl payload.name, eq_refl payload.uns_path, eq_refl payload.datatype)

  path_equal :
      (id : ℕ) (existing : Metric)
      → select_one (has_path payload.uns_path) t.rows ≡ some (id, existing)
      → MetricFits id (record payload { uns_path = existing.uns_path })
  unfolding metric_rows_equal
  path_equal id existing e =
      let holds = select_one-holds (has_path payload.uns_path) id existing t.rows e in
      record {
        found =
            select_one-put_found (has_path payload.uns_path) id
              (record payload { uns_path = existing.uns_path }) existing t.rows holds e;
        same = ground (arith, holds, eq_refl payload.name, eq_refl payload.datatype);
      }

  identity_equal :
      (id : ℕ) (existing : Metric)
      → select_one (has_path payload.uns_path) t.rows ≡ none
      → select_one (has_identity payload) t.rows ≡ some (id, existing)
      → MetricFits id (by_identity_row existing)
  unfolding metric_rows_equal
  identity_equal id existing absent e =
      let holds = select_one-holds (has_identity payload) id existing t.rows e in
      record {
        found =
            select_one-put (has_path payload.uns_path) id (by_identity_row existing) t.rows
              (eq_refl payload.uns_path) absent;
        same = ground (arith, holds, eq_refl payload.uns_path, eq_refl payload.datatype);
      }

  by_identity :
      (found : Option (ℕ × Metric))
      → select_one (has_path payload.uns_path) t.rows ≡ none
      → select_one (has_identity payload) t.rows ≡ found
      → MetricStored payload t (or_insert devices payload found t)
  by_identity none absent e =
      insert_ends metric_conflicts (refers devices) (has_path payload.uns_path)
        (λ x. metric_rows_equal x payload) t payload
        (insert_row metric_conflicts (refers devices) payload t)
        (record {
          found =
              select_one-put (has_path payload.uns_path) t.next_id payload t.rows
                (eq_refl payload.uns_path) absent;
          same = equal_refl;
        })
        (insert_row-Ends metric_conflicts (refers devices) payload t)
  by_identity (some (id, existing)) absent e =
      update-Stored metric_conflicts (refers devices) (has_path payload.uns_path)
        (λ x. metric_rows_equal x payload) t id (by_identity_row existing)
        (identity_equal id existing absent e)

  by_path :
      (found : Option (ℕ × Metric))
      → select_one (has_path payload.uns_path) t.rows ≡ found
      → MetricStored payload t (or_identity devices payload found t)
  by_path none e = by_identity (select_one (has_identity payload) t.rows) e refl
  by_path (some (id, existing)) e = elim (Bool-cases (metric_rows_equal existing payload)) [
    | inl same ↦ rw (same) (e, same, λ j n. refl, λ h. refl)
    | inr differ ↦ rw (differ) (
        update-Stored metric_conflicts (refers devices) (has_path payload.uns_path)
          (λ x. metric_rows_equal x payload) t id (record payload { uns_path = existing.uns_path })
          (path_equal id existing e))
  ]

-- A metric upsert that fails, also for want of its device, leaves the rows as they were. One that
-- returns leaves, under the path of the payload, one row that the payload equals, which is the row
-- that it returns; all other rows are as they were, and after a noop the whole table is.
pub upsert_metric-Stored :
    (devices : List ℕ) (payload : Metric) (t : Table Metric)
    → MetricStored payload t (upsert_metric devices payload t)
unfolding upsert_metric
upsert_metric-Stored devices payload t =
    by_path devices payload t (select_one (has_path payload.uns_path) t.rows) refl
