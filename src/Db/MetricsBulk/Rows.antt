-- ===== src/Db/MetricsBulk/Rows.antt =====
-- The statement of a bulk upsert of metrics keeps the key, the device and the name of every row.
use mathlib.Core.Path.{subst}
use native.Mathlib.Decide.{ℕ_discrete}
use text.Mathlib.TextEquality.{eq_iff}
use dbirth.Base.{
  ℕ, ◌+◌, ◌<◌, ◌≡◌, refl, sym, ap, ◌∙◌, arith, String, Bool, true, false, ◌&&◌, ◌||◌, not, Option,
  none, some, List, [], ◌∷◌, ◌==◌, if◌then◌else◌, All, inl, inr,
}
use dbirth.Base.Dict.{Dict, keys, IsDistinct, get, get-put, put, contains, nat_key, string_key}
use dbirth.Base.Dict.Keys.{put-IsDistinct, get_absent}
use dbirth.Base.Options.{bind_some}
use dbirth.Db.MetricsBulk.{advanced, overwritten, met_then, inserted_then, place_beside, place_all}
use dbirth.Db.Metrics.{Metric, has_identity, metric_conflicts, refers}
use dbirth.Db.Table.{
  Table, select_one, breaks, update_row, insert_row, update_row-cases, get-put_other,
  select_one-holds,
}

-- A row of this device and name stands under the key.
pub record Stands (device : ℕ) (name : String) (rows : Dict ℕ Metric) (id : ℕ) : Type 0 where
  pub row : Metric
  pub found : get id rows ≡ some row
  pub of_device : row.device_id ≡ device
  pub of_name : row.name ≡ name

-- every row keeps its key, its device and its name
abbrev pub Keeps : Dict ℕ Metric → Dict ℕ Metric → Type 0
Keeps rows rows' =
    (device : ℕ) (name : String) (id : ℕ) → Stands device name rows id → Stands device name rows' id

-- a serial key is larger than every key that was used
abbrev pub IsFresh : Table Metric → Type 0
IsFresh t = (id : ℕ) (row : Metric) → get id t.rows ≡ some row → id < t.next_id

pub record IsSound (t : Table Metric) : Type 0 where
  pub fresh : IsFresh t
  pub distinct : IsDistinct (keys t.rows)

select_one-get :
    (test : Metric → Bool) (id : ℕ) (row : Metric) (rows : Dict ℕ Metric)
    → IsDistinct (keys rows)
    → select_one test rows ≡ some (id, row)
    → get id rows ≡ some row
unfolding select_one get
select_one-get test id row [] u e = absurd (cc (e))
select_one-get test id row ((j, other) ∷ rows) u e =
    ground (arith, e, get_absent j rows u.0, select_one-get test id row rows u.1)

Stands-put :
    (device : ℕ) (name : String) (key id : ℕ) (row : Metric) (rows : Dict ℕ Metric)
    → (key ≡ id → (row.device_id ≡ device) × (row.name ≡ name))
    → Stands device name rows id
    → Stands device name (put key row rows) id
Stands-put device name key id row rows h s = elim (ℕ_discrete key id) [
  | yes e ↦ record {
    row = row;
    found = get-put key id row rows ∙ ground (arith, e);
    of_device = (h e).0;
    of_name = (h e).1;
  }
  | no n ↦ record {
    row = s.row;
    found = get-put_other key id row rows n ∙ s.found;
    of_device = s.of_device;
    of_name = s.of_name;
  }
]

second : (a b : Bool) → (a && b) ≡ true → b ≡ true
second true b h = h
second false b h = absurd (cc (h))

put-IsFresh :
    (key next : ℕ) (row : Metric) (rows : Dict ℕ Metric)
    → ((id : ℕ) (x : Metric) → get id rows ≡ some x → id < next)
    → key < next
    → (id : ℕ) (x : Metric) → get id (put key row rows) ≡ some x
    → id < next
put-IsFresh key next row rows f k id x e = elim (ℕ_discrete key id) [
  | yes p ↦ subst (λ i. i < next) p k
  | no n ↦ f id x (sym (get-put_other key id row rows n) ∙ e)
]

-- what a statement makes of the table
pub record Kept (t t' : Table Metric) : Type 0 where
  pub keeps : Keeps t.rows t'.rows
  pub sound : IsSound t'

-- a row with the identity of a metric
abbrev pub Has : Dict ℕ Metric → Metric → Type 0
Has rows p = (id : ℕ) × Stands p.device_id p.name rows id

-- what a metric that is placed makes of the table
record KeptWith (p : Metric) (t t' : Table Metric) : Type 0 where
  kept : Kept t t'
  has : Has t'.rows p

identity_parts :
    (p row : Metric)
    → has_identity p row ≡ true
    → (row.device_id ≡ p.device_id) × (row.name ≡ p.name)
identity_parts p row h =
    (ground (arith, h), (eq_iff row.name p.name).0 (second (row.device_id == p.device_id) _ h))

some_same : {a b : Metric} → some a ≡ some b → a ≡ b
some_same e = cc (e)

pub unmet :
    (b : Bool) (o : Option (List ℕ × Table Metric)) (r : List ℕ × Table Metric)
    → (if b then none else o) ≡ some r
    → o ≡ some r
unmet true o r e = absurd (cc (e))
unmet false o r e = e

updated-Kept :
    (devices met : List ℕ) (id : ℕ) (payload existing : Metric) (t : Table Metric)
    (r : List ℕ × Table Metric)
    → IsSound t
    → get id t.rows ≡ some existing
    → has_identity payload existing ≡ true
    → met_then met id (
        update_row metric_conflicts (refers devices) id (overwritten payload existing) (advanced t))
      ≡ some r
    → KeptWith payload t r.1
updated-Kept devices met id payload existing t r s found identity e =
    elim (update_row-cases metric_conflicts (refers devices) id (overwritten payload existing)
      (advanced t)) [
        | inl none_left ↦
            let clash : none ≡ some r = sym (ap (met_then met id) none_left) ∙ e in
            absurd (cc (clash))
        | inr written ↦
            let t' : Table Metric = record {
              rows = put id (overwritten payload existing) t.rows;
              next_id = t.next_id + 1;
            } in
            let made : some (id ∷ met, t') ≡ some r = sym (ap (met_then met id) written) ∙ e in
            let same : (id ∷ met, t') ≡ r = cc (made) in
            let below = s.fresh id existing found in
            let parts = identity_parts payload existing identity in
            let at_key : Stands payload.device_id payload.name t.rows id = record {
              row = existing;
              found = found;
              of_device = parts.0;
              of_name = parts.1;
            } in
            let kept : Kept t t' = record {
              keeps = λ device name j st.
                  Stands-put device name id j (overwritten payload existing) t.rows
                    (λ p.
                      let there : existing ≡ st.row =
                        some_same (sym found ∙ ap (λ i. get i t.rows) p ∙ st.found) in
                      (
                        ap (λ x. x.device_id) there ∙ st.of_device,
                        ap (λ x. x.name) there ∙ st.of_name,
                      ))
                    st;
              sound = record {
                fresh =
                    put-IsFresh id (t.next_id + 1) (overwritten payload existing) t.rows
                      (λ j x g. let old = s.fresh j x g in omega (arith, old))
                      (omega (arith, below));
                distinct = put-IsDistinct id (overwritten payload existing) t.rows s.distinct;
              };
            } in
            subst (λ x. KeptWith payload t x.1) same
              (record {
                kept = kept;
                has = (id, kept.keeps payload.device_id payload.name id at_key);
              })
      ]

inserted-Kept :
    (b : Bool) (met : List ℕ) (payload : Metric) (t : Table Metric) (r : List ℕ × Table Metric)
    → IsSound t
    → inserted_then met (
        if b then (none, record t { next_id = t.next_id + 1 }) else (
          some t.next_id,
          record { rows = put t.next_id payload t.rows; next_id = t.next_id + 1 },
        ))
      ≡ some r
    → KeptWith payload t r.1
inserted-Kept true met payload t r s e = absurd (cc (e))
inserted-Kept false met payload t r s e =
    let t' : Table Metric = record {
      rows = put t.next_id payload t.rows;
      next_id = t.next_id + 1;
    } in
    let same : (t.next_id ∷ met, t') ≡ r = cc (e) in
    let kept : Kept t t' = record {
      keeps = λ device name j st.
          Stands-put device name t.next_id j payload t.rows
            (λ p. let old = s.fresh j st.row st.found in absurd (omega (arith, old, p))) st;
      sound = record {
        fresh =
            put-IsFresh t.next_id (t.next_id + 1) payload t.rows
              (λ j x g. let old = s.fresh j x g in omega (arith, old)) (omega arith);
        distinct = put-IsDistinct t.next_id payload t.rows s.distinct;
      };
    } in
    subst (λ x. KeptWith payload t x.1) same
      (record {
        kept = kept;
        has = (
          t.next_id,
          record {
            row = payload;
            found = get-put t.next_id t.next_id payload t.rows ∙ ground arith;
            of_device = refl;
            of_name = refl;
          },
        );
      })

module _ (devices : List ℕ) where
  beside-Kept :
      (found : Option (ℕ × Metric)) (met : List ℕ) (payload : Metric) (t : Table Metric)
      (r : List ℕ × Table Metric)
      → IsSound t
      → select_one (has_identity payload) t.rows ≡ found
      → place_beside devices found met payload t ≡ some r
      → KeptWith payload t r.1
  unfolding insert_row
  beside-Kept none met payload t r s e h =
      inserted-Kept
        (breaks metric_conflicts (refers devices) t.next_id payload t.rows
          || not (refers devices payload))
        met payload t r s h
  beside-Kept (some (id, existing)) met payload t r s e h =
      updated-Kept devices met id payload existing t r s
        (select_one-get (has_identity payload) id existing t.rows s.distinct e)
        (select_one-holds (has_identity payload) id existing t.rows e)
        (unmet (contains id met) _ r h)

  pub all-Kept :
      (met : List ℕ) (ps : List Metric) (t t' : Table Metric)
      → IsSound t
      → place_all devices met ps t ≡ some t'
      → Kept t t' × All (Has t'.rows) ps
  unfolding place_all
  all-Kept met [] t t' s h =
      let same : t ≡ t' = cc (h) in
      (subst (Kept t) same (record { keeps = λ device name j st. st; sound = s }), tt)
  all-Kept met (p ∷ ps) t t' s h =
      let one =
        bind_some (place_beside devices (select_one (has_identity p) t.rows) met p t)
          (λ x. place_all devices x.0 ps x.1) t' h in
      let first = beside-Kept (select_one (has_identity p) t.rows) met p t one.0 s refl one.1 in
      let rest = all-Kept one.0.0 ps one.0.1 t' first.kept.sound one.2 in
      (
        record {
          keeps =
              λ device name j st. rest.0.keeps device name j (first.kept.keeps device name j st);
          sound = rest.0.sound;
        },
        ((first.has.0, rest.0.keeps p.device_id p.name first.has.0 first.has.1), rest.1),
      )
