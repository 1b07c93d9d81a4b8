-- ===== src/Migrations/Rollback.antt =====
-- `rollback_last` (migrations/runner.py), with the parameters of the parent module.
use mathlib.Core.Path.{subst}
use text.Mathlib.Text.{◌==◌ as str_eq}
use text.Mathlib.TextEquality.{eq_iff}
use dbirth.Base.{
  ℕ, ◌≤◌, ◌≡◌, refl, sym, ap, ◌∙◌, inl, inr, String, Bool, true, false, Option, none, some, List,
  [], ◌∷◌, arith, if◌then◌else◌, ltb, ltb→lt, ltb→le, Bool-cases,
}
use dbirth.Base.Dict.{Dict, remove, string_key}
use dbirth.Base.Dict.Keys.{AllEntries}
use dbirth.Base.Result.{Result, ok, err}
use dbirth.Migrations.{Migration, Database, or_empty}

pub data RollbackError : Type 0 where
  not_found : String → RollbackError
  rollback_mismatch : Migration → RollbackError
  rollback_failed : RollbackError

-- the migration of a version: of two with the same version, the last one
unfoldable pub find_migration : String → List Migration → Option Migration
find_migration version [] = none
find_migration version (m ∷ ms) =
    let rest = find_migration version ms in
    elim rest [ some n ↦ some n | none ↦ if str_eq m.version version then some m else none ]

abbrev pub pick_row : Bool → String × String → String × String → String × String
pick_row true row other = other
pick_row false row other = row

module _ {S : Type 0} (number : String → ℕ)
    (execute : String → Database S → Option (Database S)) where
  abbrev pub later : String × String → Option (String × String) → String × String
  later row none = row
  later row (some other) = pick_row (ltb (number row.0) (number other.0)) row other

  -- `ORDER BY (version)::int DESC LIMIT 1`
  unfoldable pub last_row : Dict String String → Option (String × String)
  last_row [] = none
  last_row (row ∷ rows) = some (later row (last_row rows))

  abbrev pub Rollback : Type 0
  Rollback = Result RollbackError (Option Migration) × Database S

  abbrev pub delete_version : String → Database S → Database S
  delete_version version db = record db { ledger = some (remove version (or_empty db.ledger)) }

  abbrev pub finish_rollback : Migration → Database S → Option (Database S) → Rollback
  finish_rollback m db none = (err rollback_failed, db)
  finish_rollback m db (some db') = (ok (some m), db')

  -- the transaction: the row goes first, and then the down script runs
  abbrev pub roll_back : Bool → Migration → Database S → Rollback
  roll_back true m db = (ok (some m), db)
  roll_back false m db = finish_rollback m db (execute m.down_sql (delete_version m.version db))

  abbrev pub check_checksum : Bool → Bool → Migration → Database S → Rollback
  check_checksum true dry m db = roll_back dry m db
  check_checksum false dry m db = (err (rollback_mismatch m), db)

  abbrev pub roll_back_found : Bool → String → String → Option Migration → Database S → Rollback
  roll_back_found dry version checksum none db = (err (not_found version), db)
  roll_back_found dry version checksum (some m) db =
      check_checksum (str_eq m.checksum checksum) dry m db

  abbrev pub roll_back_row :
      List Migration → Bool → Option (String × String) → Database S → Rollback
  roll_back_row migrations dry none db = (ok none, db)
  roll_back_row migrations dry (some (version, checksum)) db =
      roll_back_found dry version checksum (find_migration version migrations) db

  -- `rollback_last`; a ledger that is missing has no row
  unfoldable pub rollback_last : List Migration → Bool → Database S → Rollback
  rollback_last migrations dry db = roll_back_row migrations dry (last_row (or_empty db.ledger)) db

  abbrev NotLater : String → String → String → Type 0
  NotLater version other checksum = number other ≤ number version

  raise_bound :
      (u v : String) (rows : Dict String String)
      → number u ≤ number v
      → AllEntries (NotLater u) rows
      → AllEntries (NotLater v) rows
  raise_bound u v [] h a = tt
  raise_bound u v (row ∷ rows) h a = (omega (arith, h, a.0), raise_bound u v rows h a.1)

  abbrev LatestOf : Dict String String → Option (String × String) → Type 0
  LatestOf rows none = rows ≡ []
  LatestOf rows (some last) = AllEntries (NotLater last.0) rows

  pick_bounds :
      (row other : String × String) (rows : Dict String String) (newer : Bool)
      → ltb (number row.0) (number other.0) ≡ newer
      → AllEntries (NotLater other.0) rows
      → AllEntries (NotLater (pick_row newer row other).0) (row ∷ rows)
  pick_bounds row other rows true e h = (omega (arith, ltb→lt (number row.0) (number other.0) e), h)
  pick_bounds row other rows false e h =
      (omega arith, raise_bound other.0 row.0 rows (ltb→le (number row.0) (number other.0) e) h)

  later_bounds :
      (row : String × String) (rows : Dict String String) (o : Option (String × String))
      → LatestOf rows o
      → AllEntries (NotLater (later row o).0) (row ∷ rows)
  later_bounds row rows none h =
      (omega arith, subst (λ r. AllEntries (NotLater row.0) r) (sym h) tt)
  later_bounds row rows (some other) h =
      pick_bounds row other rows (ltb (number row.0) (number other.0)) refl h

  last_row-LatestOf : (rows : Dict String String) → LatestOf rows (last_row rows)
  unfolding last_row
  last_row-LatestOf [] = refl
  last_row-LatestOf (row ∷ rows) = later_bounds row rows (last_row rows) (last_row-LatestOf rows)

  -- What a migration that is rolled back has to do with the ledger.
  pub record Undoes (dry : Bool) (migrations : List Migration) (m : Migration) (db db' : Database S)
      : Type 0 where
    pub version : String
    pub recorded : last_row (or_empty db.ledger) ≡ some (version, m.checksum)
    pub latest : AllEntries (NotLater version) (or_empty db.ledger)
    pub packaged : find_migration version migrations ≡ some m
    pub kept : dry ≡ true → db' ≡ db
    pub ran : dry ≡ false → execute m.down_sql (delete_version m.version db) ≡ some db'

  abbrev pub RolledBack : Bool → List Migration → Database S → Rollback → Type 0
  RolledBack dry migrations db (err e, db') = db' ≡ db
  RolledBack dry migrations db (ok none, db') = (or_empty db.ledger ≡ []) × (db' ≡ db)
  RolledBack dry migrations db (ok (some m), db') = Undoes dry migrations m db db'

  module _ (migrations : List Migration) (db : Database S) (version : String) (m : Migration)
      (recorded : last_row (or_empty db.ledger) ≡ some (version, m.checksum))
      (latest : AllEntries (NotLater version) (or_empty db.ledger))
      (packaged : find_migration version migrations ≡ some m) where
    finished :
        (r : Option (Database S))
        → execute m.down_sql (delete_version m.version db) ≡ r
        → RolledBack false migrations db (finish_rollback m db r)
    finished none e = refl
    finished (some db') e = record {
      version = version;
      recorded = recorded;
      latest = latest;
      packaged = packaged;
      kept = λ h. absurd (cc (h));
      ran = λ h. e;
    }

    rolled : (dry : Bool) → RolledBack dry migrations db (roll_back dry m db)
    rolled true = record {
      version = version;
      recorded = recorded;
      latest = latest;
      packaged = packaged;
      kept = λ h. refl;
      ran = λ h. absurd (cc (h));
    }
    rolled false = finished (execute m.down_sql (delete_version m.version db)) refl

  found_rolled :
      (dry : Bool) (migrations : List Migration) (db : Database S) (version checksum : String)
      (found : Option Migration)
      → last_row (or_empty db.ledger) ≡ some (version, checksum)
      → find_migration version migrations ≡ found
      → AllEntries (NotLater version) (or_empty db.ledger)
      → RolledBack dry migrations db (roll_back_found dry version checksum found db)
  found_rolled dry migrations db version checksum none r f l = refl
  found_rolled dry migrations db version checksum (some m) r f l =
      elim (Bool-cases (str_eq m.checksum checksum)) [
        | inr differs ↦ rw (differs) refl
        | inl same ↦
            let equal : m.checksum ≡ checksum = (eq_iff m.checksum checksum).0 same in
            rw (same)
              (rolled migrations db version m (r ∙ ap (λ c. some (version, c)) (sym equal)) l f dry)
      ]

  row_rolled :
      (dry : Bool) (migrations : List Migration) (db : Database S) (row : Option (String × String))
      → last_row (or_empty db.ledger) ≡ row
      → LatestOf (or_empty db.ledger) row
      → RolledBack dry migrations db (roll_back_row migrations dry row db)
  row_rolled dry migrations db none r l = (l, refl)
  row_rolled dry migrations db (some (version, checksum)) r l =
      found_rolled dry migrations db version checksum (find_migration version migrations) r refl l

  -- A rollback that raises changes nothing, and one that returns none had an empty ledger. One that
  -- returns a migration has found it, with the checksum that was recorded, for the row of the latest
  -- version: a dry run changes nothing, and any other has run the down script after the row was
  -- taken out.
  pub rollback_last-RolledBack :
      (migrations : List Migration) (dry : Bool) (db : Database S)
      → RolledBack dry migrations db (rollback_last migrations dry db)
  unfolding rollback_last
  rollback_last-RolledBack migrations dry db =
      row_rolled dry migrations db (last_row (or_empty db.ledger)) refl
        (last_row-LatestOf (or_empty db.ledger))
