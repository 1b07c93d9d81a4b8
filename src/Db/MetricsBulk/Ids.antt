-- ===== src/Db/MetricsBulk/Ids.antt =====
-- The keys that a bulk upsert of metrics returns are those of rows with the names asked for.
use mathlib.Core.Path.{subst}
use dbirth.Base.{
  ℕ, zero, suc, ◌≡◌, ◌≢◌, refl, arith, String, Bool, true, false, Option, none, some, List, [], ◌∷◌,
  ◌==◌, if◌then◌else◌, length, take, drop, take-append-drop, length-drop, ◌++◌, ◌≤◌, All,
  All-append, All-map,
}
use dbirth.Base.Dict.{Dict, nat_key, string_key}
use dbirth.Base.Result.{Result, ok, err}
use dbirth.Db.MetricsBulk.Rows.{IsSound, all-Kept}
use dbirth.Db.MetricsBulk.{
  BulkError, bad_batch_size, refused, place_all, read_batch, upsert_batches, upsert_metrics_bulk,
}
use dbirth.Db.Metrics.{Metric}
use dbirth.Db.Table.{Table}
use dbirth.Db.MetricsBulk.Reads.{
  IdsStand, Named, kept_ids, OfDevice, read_batch-IdsStand, empty_map, Extends, read_batch-Named,
}

All-take : (P : Metric → Type 0) (n : ℕ) (xs : List Metric) → All P xs → All P (take n xs)
All-take P zero xs h = tt
All-take P (suc n) [] h = tt
All-take P (suc n) (x ∷ xs) h = (h.0, All-take P n xs h.1)

All-drop : (P : Metric → Type 0) (n : ℕ) (xs : List Metric) → All P xs → All P (drop n xs)
All-drop P zero xs h = h
All-drop P (suc n) [] h = h
All-drop P (suc n) (x ∷ xs) h = All-drop P n xs h.1

-- the map of a bulk upsert: the keys of rows of the device, and one for the name of every metric
pub record Maps (device : ℕ) (items : List Metric) (rows : Dict ℕ Metric) (ids : Dict String ℕ)
    : Type 0 where
  pub stand : IdsStand device rows ids
  pub named : All (Named ids) items

abbrev Promised :
    ℕ → List Metric → Dict String ℕ → Result BulkError (Dict String ℕ) × Table Metric → Type 0
Promised device items ids (err e, t) = Unit
Promised device items ids (ok ids', t) = Maps device items t.rows ids' × Extends ids ids'

Promised-append :
    (device : ℕ) (xs ys : List Metric) (ids ids' : Dict String ℕ)
    (r : Result BulkError (Dict String ℕ) × Table Metric)
    → All (Named ids') xs
    → Extends ids ids'
    → Promised device ys ids' r
    → Promised device (xs ++ ys) ids r
Promised-append device xs ys ids ids' (err e, t) n x h = tt
Promised-append device xs ys ids ids' (ok ids'', t) n x h = (
  record {
    stand = h.0.stand;
    named =
        All-append (Named ids'') xs ys
          (All-map (Named ids') (Named ids'') (λ p q. h.1 p.name q) xs n) h.0.named;
  },
  λ name e. h.1 name (x name e),
)

module _ (devices : List ℕ) (device : ℕ) where
  batches-Promised :
      (fuel size : ℕ) (items : List Metric) (t : Table Metric) (ids : Dict String ℕ)
      → length items ≤ fuel
      → size ≢ 0
      → IsSound t
      → All (OfDevice device) items
      → IdsStand device t.rows ids
      → Promised device items ids (upsert_batches devices fuel size items t ids)
  unfolding upsert_batches
  batches-Promised zero size [] t ids l z s a h = (record { stand = h; named = tt }, λ name e. e)
  batches-Promised zero size (p ∷ ps) t ids l z s a h = absurd (omega (arith, l))
  batches-Promised (suc fuel) size [] t ids l z s a h =
      (record { stand = h; named = tt }, λ name e. e)
  batches-Promised (suc fuel) size (p ∷ ps) t ids l z s a h =
      subst
        (λ items. Promised device items ids (upsert_batches devices (suc fuel) size (p ∷ ps) t ids))
        (take-append-drop size (p ∷ ps))
        (next (place_all devices [] (take size (p ∷ ps)) t) refl (λ t' ids'.
          batches-Promised fuel size (drop size (p ∷ ps)) t' ids'
            (omega (arith, l, z, length-drop size (p ∷ ps))) z))
    where
      next :
          (placed : Option (Table Metric))
          → place_all devices [] (take size (p ∷ ps)) t ≡ placed
          → ((t' : Table Metric) (ids' : Dict String ℕ)
              → IsSound t'
              → All (OfDevice device) (drop size (p ∷ ps))
              → IdsStand device t'.rows ids'
              → Promised device
                  (drop size (p ∷ ps))
                  ids'
                  (upsert_batches devices fuel size (drop size (p ∷ ps)) t' ids'))
          → Promised device (take size (p ∷ ps) ++ drop size (p ∷ ps)) ids (elim placed [
            | none ↦ (err refused, t)
            | some t' ↦
                upsert_batches devices fuel size
                  (drop size (p ∷ ps))
                  t'
                  (read_batch (take size (p ∷ ps)) t' ids)
          ])
      next none e ih = tt
      next (some t') e ih =
          let batch = take size (p ∷ ps) in
          let kept = all-Kept devices [] batch t t' s e in
          let ids' = read_batch batch t' ids in
          let of_device = All-take (OfDevice device) size (p ∷ ps) a in
          let named = read_batch-Named device batch t' ids kept.1 of_device in
          Promised-append device batch (drop size (p ∷ ps)) ids ids'
            (upsert_batches devices fuel size (drop size (p ∷ ps)) t' ids') named.0 named.1
            (ih t' ids' kept.0.sound (All-drop (OfDevice device) size (p ∷ ps) a) (
              read_batch-IdsStand device batch t' ids kept.0.sound of_device
                (kept_ids device t.rows t'.rows ids kept.0.keeps h)))

sized-Promised :
    (b : Bool) (device : ℕ) (items : List Metric) (t : Table Metric)
    (r : Result BulkError (Dict String ℕ) × Table Metric)
    → (b ≡ false → Promised device items [] r)
    → Promised device items [] (if b then (err bad_batch_size, t) else r)
sized-Promised true device items t r h = tt
sized-Promised false device items t r h = h refl

-- Of metrics of one device, over a table whose keys are distinct and were all given out: the map that
-- a bulk upsert returns has an entry for the name of every metric, and every key under a name is that
-- of a row of the device with this name in the table that it leaves, in however many batches.
pub upsert_metrics_bulk-Maps :
    (devices : List ℕ) (device size : ℕ) (items : List Metric) (t t' : Table Metric)
    (ids : Dict String ℕ)
    → IsSound t
    → All (λ p. p.device_id ≡ device) items
    → upsert_metrics_bulk devices size items t ≡ (ok ids, t')
    → Maps device items t'.rows ids
unfolding upsert_metrics_bulk
upsert_metrics_bulk-Maps devices device size items t t' ids s a e =
    let promised : Promised device items [] (ok ids, t') = subst (Promised device items []) e (
      sized-Promised (size == 0) device items t
        (upsert_batches devices (length items) size items t [])
        (λ z.
          batches-Promised devices device (length items) size items t [] (omega arith)
            (λ p. ground (arith, z, p)) s a (λ name id h. absurd (empty_map name id h)))) in
    promised.0
