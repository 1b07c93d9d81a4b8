-- ===== src/Migrations/Tests.antt =====
-- Two runs over a small package, and the theorem at it.
use mathlib.Core.Path.{subst}
use dbirth.Base.{
  ap, sym, ◌∙◌, ℕ, ◌≡◌, refl, String, false, Option, none, some, List, [], ◌∷◌, All, if◌then◌else◌,
}
use dbirth.Base.Dict.{Dict, get, put, remove, string_key, String-discrete}
use dbirth.Base.Result.{ok, err}
use text.Mathlib.Text.{◌==◌ as str_eq}
use dbirth.Migrations.Rollback.{
  find_migration, last_row, rollback_last, RolledBack, rollback_last-RolledBack,
}
use dbirth.Migrations.{
  Migration, checksum_mismatch, Database, or_empty, Contains, IsApplied, KeepsLedger, fetch_applied,
  insert_version, run_up, apply_from, apply_migrations, apply_migrations_again,
}

abbrev ledger : Migration
ledger = record {
  version = "000";
  name = "schema_migrations";
  up_sql = "create ledger";
  down_sql = "drop ledger";
  checksum = "a1";
}

abbrev schema : Migration
schema = record {
  version = "001";
  name = "release";
  up_sql = "create schema";
  down_sql = "drop schema";
  checksum = "b2";
}

abbrev number : String → ℕ
number version = if str_eq version "000" then 0 else 1

-- The script drops the ledger, or creates it if it is missing, and does nothing else.
abbrev execute : String → Database (Unit {0}) → Option (Database (Unit {0}))
execute sql db =
    some (record db {
      ledger = (if str_eq sql "drop ledger" then none else some (or_empty db.ledger));
    })

abbrev or_rows : Option (Database (Unit {0})) → Dict String String
or_rows none = []
or_rows (some db) = fetch_applied db

keeps_rows : (m : Migration) → str_eq m.up_sql "drop ledger" ≡ false → KeepsLedger number execute m
keeps_rows m h db db' e version checksum old =
    let made : some (record db { ledger = some (or_empty db.ledger) }) ≡ some db' =
      subst
        (λ b.
          some (record db { ledger = (if b then none else some (or_empty db.ledger)) }) ≡ some db')
        h e in
    let same : fetch_applied db ≡ fetch_applied db' = ap or_rows made in
    ap (get version) (sym same) ∙ old

abbrev fresh : Database (Unit {0})
fresh = record { ledger = none; rest = tt }

abbrev migrated : Database (Unit {0})
migrated = record { ledger = some (("000", "a1") ∷ ("001", "b2") ∷ []); rest = tt }

abbrev both : List Migration
both = ledger ∷ schema ∷ []

applies : apply_migrations number execute both none false fresh ≡ (ok both, migrated)
unfolding apply_migrations apply_from run_up insert_version get put String-discrete
applies = refl

-- A script that was changed after it was applied is refused before anything runs.
changed :
    apply_migrations number execute
      (record ledger { checksum = "c3" } ∷ schema ∷ [])
      none
      false
      migrated
    ≡ (err (checksum_mismatch (record ledger { checksum = "c3" })), migrated)
unfolding apply_migrations apply_from get String-discrete
changed = refl

apply_migrations_again_example :
    All (IsApplied (fetch_applied migrated)) both
    × Contains (fetch_applied fresh) (fetch_applied migrated)
    × (apply_migrations number execute both none false migrated ≡ (ok [], migrated))
apply_migrations_again_example =
    apply_migrations_again number execute both both fresh migrated
      (keeps_rows ledger refl, (keeps_rows schema refl, tt)) applies

-- The down script of the schema keeps the ledger, so that its first row is left.
undone :
    rollback_last number execute both false migrated
    ≡ (ok (some schema), record migrated { ledger = some (("000", "a1") ∷ []) })
unfolding rollback_last last_row find_migration remove String-discrete
undone = refl

rollback_last-RolledBack_example :
    RolledBack number execute false both migrated (rollback_last number execute both false migrated)
rollback_last-RolledBack_example = rollback_last-RolledBack number execute both false migrated
