-- ===== src/Db/MetricsBulk/Reads.antt =====
-- What is read back after a batch: keys of rows of the device, and one for every name of the batch.
use mathlib.Core.Path.{subst}
use native.Mathlib.Decide.{ℕ_discrete}
use dbirth.Base.{
  ℕ, ◌≡◌, refl, sym, ap, ◌∙◌, arith, String, Bool, true, false, ◌&&◌, some, List, [], ◌∷◌, ◌==◌,
  if◌then◌else◌, All,
}
use dbirth.Base.Dict.{
  Dict, keys, IsDistinct, get, get-put, put, contains, nat_key, string_key, String-discrete,
}
use dbirth.Db.MetricsBulk.Rows.{Stands, Keeps, Has, IsSound}
use dbirth.Db.MetricsBulk.{names_of, read_ids, read_batch}
use dbirth.Db.Metrics.{Metric}
use dbirth.Db.Table.{Table}

-- every key of the map is that of a row of the device with that name
abbrev pub IdsStand : ℕ → Dict ℕ Metric → Dict String ℕ → Type 0
IdsStand device rows ids =
    (name : String) (id : ℕ) → get name ids ≡ some id → Stands device name rows id

abbrev Among : Dict ℕ Metric → Dict ℕ Metric → Type 0
Among rows part = All (λ e. get e.0 rows ≡ some e.1) part

same_row : {a b : Metric} → some a ≡ some b → a ≡ b
same_row e = cc (e)

device_same : (a b : ℕ) (t : Bool) → (a == b && t) ≡ true → a ≡ b
device_same a b t h = ground (arith, h)

read_one :
    (b : Bool) (device id : ℕ) (row : Metric) (rows : Dict ℕ Metric) (ids : Dict String ℕ)
    → get id rows ≡ some row
    → (b ≡ true → row.device_id ≡ device)
    → IdsStand device rows ids
    → IdsStand device rows (if b then put row.name id ids else ids)
read_one false device id row rows ids f d s name j e = s name j e
read_one true device id row rows ids f d s name j e = elim (String-discrete row.name name) [
  | yes p ↦
      let at : some id ≡ some j = sym (get-put row.name name id ids ∙ ground (arith, p)) ∙ e in
      let same : id ≡ j = cc (at) in
      record {
        row = row;
        found = ap (λ i. get i rows) (sym same) ∙ f;
        of_device = d refl;
        of_name = p;
      }
  | no n ↦ s name j (sym (get-put row.name name id ids ∙ ground (arith, n)) ∙ e)
]

read_ids-IdsStand :
    (device : ℕ) (names : List String) (rows part : Dict ℕ Metric) (ids : Dict String ℕ)
    → Among rows part
    → IdsStand device rows ids
    → IdsStand device rows (read_ids device names part ids)
unfolding read_ids
read_ids-IdsStand device names rows [] ids a s = s
read_ids-IdsStand device names rows ((id, row) ∷ part) ids a s =
    read_ids-IdsStand device names rows part
      (if row.device_id == device && contains row.name names then put row.name id ids else ids) a.1
      (read_one (row.device_id == device && contains row.name names) device id row rows ids a.0
        (device_same row.device_id device (contains row.name names)) s)

Among-cons :
    (id : ℕ) (row : Metric) (rows part : Dict ℕ Metric)
    → contains id (keys part) ≡ false
    → Among rows part
    → Among ((id, row) ∷ rows) part
unfolding get contains
Among-cons id row rows [] h a = tt
Among-cons id row rows (e ∷ part) h a =
    (ground (arith, h, a.0), Among-cons id row rows part (ground (arith, h)) a.1)

Among-refl : (rows : Dict ℕ Metric) → IsDistinct (keys rows) → Among rows rows
unfolding get
Among-refl [] u = tt
Among-refl (e ∷ rows) u = (ground arith, Among-cons e.0 e.1 rows rows u.0 (Among-refl rows u.1))

pub empty_map : (name : String) (id : ℕ) → get {V = ℕ} name [] ≡ some id → ⊥
unfolding get
empty_map name id h = cc (h)

-- the map has an entry for every metric
abbrev pub Named : Dict String ℕ → Metric → Type 0
Named ids p = (id : ℕ) × (get p.name ids ≡ some id)

named_one :
    (b : Bool) (name other : String) (id : ℕ) (ids : Dict String ℕ)
    → ((j : ℕ) × (get name ids ≡ some j))
    → (j : ℕ) × (get name (if b then put other id ids else ids) ≡ some j)
named_one false name other id ids h = h
named_one true name other id ids h = elim (String-discrete other name) [
  | yes p ↦ (id, get-put other name id ids ∙ ground (arith, p))
  | no n ↦ (h.0, get-put other name id ids ∙ ground (arith, n, h.1))
]

named_more :
    (device : ℕ) (names : List String) (part : Dict ℕ Metric) (ids : Dict String ℕ) (name : String)
    → ((j : ℕ) × (get name ids ≡ some j))
    → (j : ℕ) × (get name (read_ids device names part ids) ≡ some j)
unfolding read_ids
named_more device names [] ids name h = h
named_more device names ((id, row) ∷ part) ids name h =
    named_more device names part
      (if row.device_id == device && contains row.name names then put row.name id ids else ids) name
      (named_one (row.device_id == device && contains row.name names) name row.name id ids h)

this_row :
    (device : ℕ) (names : List String) (row : Metric) (name : String)
    → row.device_id ≡ device
    → row.name ≡ name
    → contains name names ≡ true
    → (row.device_id == device && contains row.name names) ≡ true
this_row device names row name d n c =
    let listed : contains row.name names ≡ true = ap (λ x. contains x names) n ∙ c in
    ground (arith, d, listed)

named_here :
    (b : Bool) (id : ℕ) (row : Metric) (ids : Dict String ℕ) (name : String)
    → b ≡ true
    → row.name ≡ name
    → (j : ℕ) × (get name (if b then put row.name id ids else ids) ≡ some j)
named_here true id row ids name e n = (id, get-put row.name name id ids ∙ ground (arith, n))
named_here false id row ids name e n = absurd (cc (e))

-- A row of the device with a name that is listed gives the name an entry.
named_listed :
    (device : ℕ) (names : List String) (part : Dict ℕ Metric) (ids : Dict String ℕ) (name : String)
    (id : ℕ)
    → Stands device name part id
    → contains name names ≡ true
    → (j : ℕ) × (get name (read_ids device names part ids) ≡ some j)
unfolding read_ids get
named_listed device names [] ids name id s c = let e = s.found in absurd (cc (e))
named_listed device names ((j, row) ∷ part) ids name id s c =
    let chosen =
      if row.device_id == device && contains row.name names then put row.name j ids else ids in
    elim (ℕ_discrete j id) [
      | yes p ↦
          let this : row ≡ s.row = same_row (ground (arith, s.found, p)) in
          let d : row.device_id ≡ device = ap (λ x. x.device_id) this ∙ s.of_device in
          let n : row.name ≡ name = ap (λ x. x.name) this ∙ s.of_name in
          named_more device names part chosen name (
            named_here (row.device_id == device && contains row.name names) j row ids name
              (this_row device names row name d n c) n)
      | no q ↦
          named_listed device names part chosen name id
            (record {
              row = s.row;
              found = ground (arith, s.found, q);
              of_device = s.of_device;
              of_name = s.of_name;
            })
            c
    ]

pub kept_ids :
    (device : ℕ) (rows rows' : Dict ℕ Metric) (ids : Dict String ℕ)
    → Keeps rows rows'
    → IdsStand device rows ids
    → IdsStand device rows' ids
kept_ids device rows rows' ids k s name id e = k device name id (s name id e)

abbrev pub OfDevice : ℕ → Metric → Type 0
OfDevice device p = p.device_id ≡ device

pub read_batch-IdsStand :
    (device : ℕ) (batch : List Metric) (t : Table Metric) (ids : Dict String ℕ)
    → IsSound t
    → All (OfDevice device) batch
    → IdsStand device t.rows ids
    → IdsStand device t.rows (read_batch batch t ids)
read_batch-IdsStand device [] t ids s a h = h
read_batch-IdsStand device (p ∷ ps) t ids s a h =
    subst (λ d. IdsStand device t.rows (read_ids d (names_of (p ∷ ps)) t.rows ids)) (sym a.0)
      (read_ids-IdsStand device (names_of (p ∷ ps)) t.rows t.rows ids (Among-refl t.rows s.distinct)
        h)

-- no name loses its entry
abbrev pub Extends : Dict String ℕ → Dict String ℕ → Type 0
Extends ids ids' =
    (name : String) → ((j : ℕ) × (get name ids ≡ some j)) → (j : ℕ) × (get name ids' ≡ some j)

head_listed : (name : String) (names : List String) → contains name (name ∷ names) ≡ true
unfolding contains
head_listed name names = ground arith

tail_listed :
    (name other : String) (names : List String)
    → contains name names ≡ true
    → contains name (other ∷ names) ≡ true
unfolding contains
tail_listed name other names h = ground (arith, h)

read_ids-Named :
    (device : ℕ) (names : List String) (rows : Dict ℕ Metric) (ids : Dict String ℕ)
    (ps : List Metric)
    → ((name : String) → contains name (names_of ps) ≡ true → contains name names ≡ true)
    → All (Has rows) ps
    → All (OfDevice device) ps
    → All (Named (read_ids device names rows ids)) ps
unfolding names_of
read_ids-Named device names rows ids [] f h a = tt
read_ids-Named device names rows ids (p ∷ ps) f h a = (
  named_listed device names rows ids p.name h.0.0
      (subst (λ d. Stands d p.name rows h.0.0) a.0 h.0.1)
      (f p.name (head_listed p.name (names_of ps))),
  read_ids-Named device names rows ids ps
      (λ name c. f name (tail_listed name p.name (names_of ps) c)) h.1 a.1,
)

pub read_batch-Named :
    (device : ℕ) (batch : List Metric) (t : Table Metric) (ids : Dict String ℕ)
    → All (Has t.rows) batch
    → All (OfDevice device) batch
    → All (Named (read_batch batch t ids)) batch × Extends ids (read_batch batch t ids)
read_batch-Named device [] t ids h a = (tt, λ name e. e)
read_batch-Named device (p ∷ ps) t ids h a =
    let names = names_of (p ∷ ps) in
    subst
      (λ d.
        All (Named (read_ids d names t.rows ids)) (p ∷ ps)
        × Extends ids (read_ids d names t.rows ids))
      (sym a.0)
      (
        read_ids-Named device names t.rows ids (p ∷ ps) (λ name c. c) h a,
        λ name e. named_more device names t.rows ids name e,
      )
