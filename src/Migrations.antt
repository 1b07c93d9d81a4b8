-- ===== src/Migrations.antt =====
-- `apply_migrations` (migrations/runner.py). What a script does to the database is a parameter, and
-- so are the number of a version and the migrations that are packaged, which come sorted.
pub mod Rollback
mod Tests
use mathlib.Core.Path.{subst}
use text.Mathlib.Text.{◌==◌ as str_eq}
use text.Mathlib.TextEquality.{eq_iff}
use text.Mathlib.TextPositions.{eq_refl}
use dbirth.Base.{
  ℕ, ◌≡◌, refl, sym, ap, ◌∙◌, inl, inr, String, Bool, true, false, Option, none, some, List, [],
  ◌∷◌, ◌++◌, arith, if◌then◌else◌, ltb, All, Bool-cases, Option-cases,
}
use dbirth.Base.Dict.{Dict, get, put, get-put, string_key, String-discrete}
use dbirth.Base.Result.{Result, ok, err}

pub record Migration : Type 0 where
  pub version : String
  pub name : String
  pub up_sql : String
  pub down_sql : String
  pub checksum : String

pub data MigrationError : Type 0 where
  checksum_mismatch : Migration → MigrationError
  database_error : MigrationError

-- The database: the rows of the ledger, or none where its table is missing, and all the rest.
pub record Database (S : Type 0) : Type 0 where
  pub ledger : Option (Dict String String)
  pub rest : S

abbrev pub or_empty : Option (Dict String String) → Dict String String
or_empty none = []
or_empty (some rows) = rows

-- the insertion, on what the ledger has of the version; none is a raise
abbrev pub insert_at :
    Option String → Option (Dict String String) → Migration → Option (Dict String String)
insert_at (some _) ledger m = none
insert_at none none m = none
insert_at none (some rows) m = some (put m.version m.checksum rows)

-- The database has every row of a ledger.
abbrev pub Contains : Dict String String → Dict String String → Type 0
Contains before after =
    (version checksum : String)
    → get version before ≡ some checksum
    → get version after ≡ some checksum

abbrev pub IsApplied : Dict String String → Migration → Type 0
IsApplied ledger m = get m.version ledger ≡ some m.checksum

insert_at-IsApplied :
    (found : Option String) (ledger : Option (Dict String String)) (m : Migration)
    (rows : Dict String String)
    → get m.version (or_empty ledger) ≡ found
    → insert_at found ledger m ≡ some rows
    → IsApplied rows m × Contains (or_empty ledger) rows
insert_at-IsApplied (some c) ledger m rows h e = absurd (cc (e))
insert_at-IsApplied none none m rows h e = absurd (cc (e))
insert_at-IsApplied none (some before) m rows h e =
    let same : put m.version m.checksum before ≡ rows = cc (e) in
    subst (λ r. IsApplied r m × Contains before r) same
      (
        ground (arith, get-put m.version m.version m.checksum before),
        λ version checksum old. ground (arith, get-put m.version version m.checksum before, h, old),
      )

module _ {S : Type 0} where
  -- `_fetch_applied`
  abbrev pub fetch_applied : Database S → Dict String String
  fetch_applied db = or_empty db.ledger

  abbrev pub with_ledger : Database S → Option (Dict String String) → Option (Database S)
  with_ledger db none = none
  with_ledger db (some rows) = some (record db { ledger = some rows })

  -- `INSERT INTO schema_migrations`; none where the table is missing or has the version
  unfoldable pub insert_version : Migration → Database S → Option (Database S)
  insert_version m db = with_ledger db (insert_at (get m.version (fetch_applied db)) db.ledger m)

module _ {S : Type 0} (number : String → ℕ)
    (execute : String → Database S → Option (Database S)) where
  abbrev pub inserted : Migration → Option (Database S) → Option (Database S)
  inserted m none = none
  inserted m (some db) = insert_version m db

  -- the transaction of one migration; none is a raise, which leaves the database as it was
  unfoldable pub run_up : Migration → Database S → Option (Database S)
  run_up m db = inserted m (execute m.up_sql db)

  -- `target_version and int(version) > int(target_version)`
  abbrev pub is_beyond : Option String → Migration → Bool
  is_beyond none m = false
  is_beyond (some target) m =
      if str_eq target "" then false else ltb (number target) (number m.version)

  abbrev pub Run : Type 0
  Run = Result MigrationError (List Migration) × Database S

  -- the loop over the migrations, with the ledger as it was fetched
  unfoldable pub apply_from :
      Option String → Bool → Dict String String → List Migration → List Migration → Database S → Run
  apply_from target dry applied [] executed db = (ok executed, db)
  apply_from target dry applied (m ∷ ms) executed db = elim (is_beyond target m) [
    | true ↦ (ok executed, db)
    | false ↦ elim (get m.version applied) [
      | some checksum ↦ elim (str_eq checksum m.checksum) [
        | true ↦ apply_from target dry applied ms executed db
        | false ↦ (err (checksum_mismatch m), db)
      ]
      | none ↦ elim dry [
        | true ↦ apply_from target dry applied ms (executed ++ m ∷ []) db
        | false ↦ elim (run_up m db) [
          | none ↦ (err database_error, db)
          | some db' ↦ apply_from target dry applied ms (executed ++ m ∷ []) db'
        ]
      ]
    ]
  ]

  unfoldable pub apply_migrations : List Migration → Option String → Bool → Database S → Run
  apply_migrations migrations target dry db =
      apply_from target dry (fetch_applied db) migrations [] db

  -- The up script takes no rows out of the ledger.
  abbrev pub KeepsLedger : Migration → Type 0
  KeepsLedger m =
      (db db' : Database S)
      → execute m.up_sql db ≡ some db'
      → Contains (fetch_applied db) (fetch_applied db')

  ledger-IsApplied :
      (m : Migration) (db db' : Database S) (r : Option (Dict String String))
      → insert_at (get m.version (fetch_applied db)) db.ledger m ≡ r
      → with_ledger db r ≡ some db'
      → IsApplied (fetch_applied db') m × Contains (fetch_applied db) (fetch_applied db')
  ledger-IsApplied m db db' none h e = absurd (cc (e))
  ledger-IsApplied m db db' (some rows) h e =
      let same : record db { ledger = some rows } ≡ db' = cc (e) in
      subst (λ x. IsApplied (fetch_applied x) m × Contains (fetch_applied db) (fetch_applied x))
        same (insert_at-IsApplied (get m.version (fetch_applied db)) db.ledger m rows refl h)

  run_up-IsApplied :
      (m : Migration) (db db' : Database S)
      → KeepsLedger m
      → run_up m db ≡ some db'
      → IsApplied (fetch_applied db') m × Contains (fetch_applied db) (fetch_applied db')
  unfolding run_up insert_version
  run_up-IsApplied m db db' keeps e = elim (Option-cases (execute m.up_sql db)) [
    | inl failed ↦
        let clash : none ≡ some db' = ap (inserted m) (sym failed) ∙ e in absurd (cc (clash))
    | inr (between, ran) ↦
        let made : insert_version m between ≡ some db' = ap (inserted m) (sym ran) ∙ e in
        let (row, more) =
          ledger-IsApplied m between db'
            (insert_at (get m.version (fetch_applied between)) between.ledger m) refl made in
        (row, λ v c old. more v c (keeps db between ran v c old))
  ]

  abbrev AppliesFrom : List Migration → Database S → Run → Type 0
  AppliesFrom ms db (err e, db') = Unit
  AppliesFrom ms db (ok executed, db') =
      All (IsApplied (fetch_applied db')) ms × Contains (fetch_applied db) (fetch_applied db')

  with_head :
      (m : Migration) (ms : List Migration) (db : Database S) (r : Run)
      → IsApplied (fetch_applied db) m
      → AppliesFrom ms db r
      → AppliesFrom (m ∷ ms) db r
  with_head m ms db (err e, db') row h = tt
  with_head m ms db (ok executed, db') row (all, more) =
      ((more m.version m.checksum row, all), more)

  from_step :
      (m : Migration) (ms : List Migration) (db db' : Database S) (r : Run)
      → IsApplied (fetch_applied db') m
      → Contains (fetch_applied db) (fetch_applied db')
      → AppliesFrom ms db' r
      → AppliesFrom (m ∷ ms) db r
  from_step m ms db db' (err e, db'') row before h = tt
  from_step m ms db db' (ok executed, db'') row before (all, more) =
      ((more m.version m.checksum row, all), λ v c old. more v c (before v c old))

  loop_applies :
      (applied : Dict String String) (ms executed : List Migration) (db : Database S)
      → All KeepsLedger ms
      → Contains applied (fetch_applied db)
      → AppliesFrom ms db (apply_from none false applied ms executed db)
  unfolding apply_from
  loop_applies applied [] executed db keeps h = (tt, λ v c old. old)
  loop_applies applied (m ∷ ms) executed db keeps h = elim (Option-cases (get m.version applied)) [
    | inr (checksum, found) ↦ elim (Bool-cases (str_eq checksum m.checksum)) [
      | inr differs ↦ rw (found, differs, apply_from) tt
      | inl same ↦
          rw (found, same, apply_from)
            (with_head m ms db (apply_from none false applied ms executed db)
              (ground (arith, h m.version checksum found, eq_iff checksum m.checksum, same))
              (loop_applies applied ms executed db keeps.1 h))
    ]
    | inl new ↦ elim (Option-cases (run_up m db)) [
      | inl failed ↦ rw (new, failed, apply_from) tt
      | inr (db', ran) ↦
          let (row, more) = run_up-IsApplied m db db' keeps.0 ran in
          rw (new, ran, apply_from)
            (from_step m ms db db' (apply_from none false applied ms (executed ++ m ∷ []) db') row
              more
              (loop_applies applied ms (executed ++ m ∷ []) db' keeps.1
                (λ v c old. more v c (h v c old))))
    ]
  ]

  skips :
      (applied : Dict String String) (ms : List Migration) (db : Database S)
      → All (IsApplied applied) ms
      → apply_from none false applied ms [] db ≡ (ok [], db)
  unfolding apply_from
  skips applied [] db h = refl
  skips applied (m ∷ ms) db h = rw (h.0, eq_refl m.checksum, apply_from) (skips applied ms db h.1)

  -- If no up script of the migrations takes rows out of the ledger, a run over all migrations that returns has recorded
  -- each of them with its checksum and kept every row of the ledger; the same run again executes
  -- nothing and changes nothing.
  pub apply_migrations_again :
      (migrations executed : List Migration) (db db' : Database S)
      → All KeepsLedger migrations
      → apply_migrations migrations none false db ≡ (ok executed, db')
      → All (IsApplied (fetch_applied db')) migrations
        × Contains (fetch_applied db) (fetch_applied db')
        × (apply_migrations migrations none false db' ≡ (ok [], db'))
  unfolding apply_migrations
  apply_migrations_again migrations executed db db' keeps e =
      let (all, more) =
        subst (AppliesFrom migrations db) e
          (loop_applies (fetch_applied db) migrations [] db keeps (λ v c old. old)) in
      (all, more, skips (fetch_applied db') migrations db' all)
