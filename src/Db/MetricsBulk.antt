-- ===== src/Db/MetricsBulk.antt =====
-- `upsert_metrics_bulk`. A statement that fails leaves the rows alone; the keys that it used up are
-- left out. The function has no transaction of its own, so that earlier batches stay.
pub mod Rows
pub mod Reads
pub mod Ids
use dbirth.Base.{
  ℕ, zero, suc, ◌+◌, String, Bool, true, false, ◌&&◌, Option, none, some, List, [], ◌∷◌, ◌==◌,
  if◌then◌else◌, length, take, drop,
}
use dbirth.Base.Dict.{Dict, put, contains, nat_key, string_key}
use dbirth.Base.Options.{◌>>=◌}
use dbirth.Base.Result.{Result, ok, err}
use dbirth.Db.Metrics.{Metric, has_identity, metric_conflicts, refers}
use dbirth.Db.Table.{Table, select_one, update_row, insert_row}

pub data BulkError : Type 0 where
  bad_batch_size refused : BulkError

-- the default of the key is taken before a conflict is found
abbrev pub advanced : Table Metric → Table Metric
advanced t = record t { next_id = t.next_id + 1 }

-- `DO UPDATE SET uns_path = EXCLUDED.uns_path, datatype = EXCLUDED.datatype`
abbrev pub overwritten : Metric → Metric → Metric
overwritten payload existing = record existing {
  uns_path = payload.uns_path;
  datatype = payload.datatype;
}

abbrev pub met_then : List ℕ → ℕ → Option (Table Metric) → Option (List ℕ × Table Metric)
met_then met id none = none
met_then met id (some t) = some (id ∷ met, t)

abbrev pub inserted_then : List ℕ → Option ℕ × Table Metric → Option (List ℕ × Table Metric)
inserted_then met (none, t) = none
inserted_then met (some id, t) = some (id ∷ met, t)

module _ (devices : List ℕ) where
  -- one row of `INSERT ... ON CONFLICT (device_id, name) DO UPDATE`; a row that the statement has met
  -- is refused
  abbrev pub place_beside :
      Option (ℕ × Metric) → List ℕ → Metric → Table Metric → Option (List ℕ × Table Metric)
  place_beside none met payload t =
      inserted_then met (insert_row metric_conflicts (refers devices) payload t)
  place_beside (some (id, existing)) met payload t =
      if contains id met
      then none
      else met_then met id (
          update_row metric_conflicts (refers devices) id (overwritten payload existing)
            (advanced t))

  -- the statement
  unfoldable pub place_all : List ℕ → List Metric → Table Metric → Option (Table Metric)
  place_all met [] t = some t
  place_all met (p ∷ ps) t = do
    one ← place_beside (select_one (has_identity p) t.rows) met p t
    place_all one.0 ps one.1

-- `[p.name for p in batch_items]`
unfoldable pub names_of : List Metric → List String
names_of [] = []
names_of (p ∷ ps) = p.name ∷ names_of ps

-- `id_map[row["name"]] = row["metric_id"]` for the rows of one device whose name is listed
unfoldable pub read_ids : ℕ → List String → Dict ℕ Metric → Dict String ℕ → Dict String ℕ
read_ids device names [] ids = ids
read_ids device names ((id, row) ∷ rows) ids =
    read_ids device names rows
      (if row.device_id == device && contains row.name names then put row.name id ids else ids)

-- the device of the first item
abbrev pub read_batch : List Metric → Table Metric → Dict String ℕ → Dict String ℕ
read_batch [] t ids = ids
read_batch (p ∷ ps) t ids = read_ids p.device_id (names_of (p ∷ ps)) t.rows ids

module _ (devices : List ℕ) where
  -- the loop over the batches, with at most as many rounds as there are items
  unfoldable pub upsert_batches :
      ℕ
      → ℕ
      → List Metric
      → Table Metric
      → Dict String ℕ
      → Result BulkError (Dict String ℕ) × Table Metric
  unfolding place_all read_ids names_of
  upsert_batches zero size items t ids = (ok ids, t)
  upsert_batches (suc fuel) size [] t ids = (ok ids, t)
  upsert_batches (suc fuel) size (p ∷ ps) t ids =
      let batch = take size (p ∷ ps) in
      elim (place_all devices [] batch t) [
        | none ↦ (err refused, t)
        | some t' ↦ upsert_batches fuel size (drop size (p ∷ ps)) t' (read_batch batch t' ids)
      ]

  -- `upsert_metrics_bulk`
  unfoldable pub upsert_metrics_bulk :
      ℕ → List Metric → Table Metric → Result BulkError (Dict String ℕ) × Table Metric
  unfolding upsert_batches
  upsert_metrics_bulk size items t =
      if size == 0 then (err bad_batch_size, t) else upsert_batches (length items) size items t []
