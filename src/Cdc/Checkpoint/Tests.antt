-- ===== src/Cdc/Checkpoint/Tests.antt =====
-- Runs of the two stores, and the theorems at concrete inputs.
use dbirth.Base.{ℕ, String, ◌≡◌, ◌≢◌, refl, true, false, Option, none, some, [], ◌∷◌, arith, ◌≤◌}
use dbirth.Base.Dict.{get, put, remove, String-discrete, string_key}
use dbirth.Base.Result.{ok, err}
use dbirth.Cdc.Checkpoint.InMemory
use dbirth.Cdc.Checkpoint.InMemory.{Positions, Refusal, unexpected, exceeds, load}
use dbirth.Cdc.Checkpoint.Persistent.{
  Json, Faults, absent, Disk, Store, os_error, refused, ints, dict, undecodable, write_locked,
  open_store, save, reset,
}
use dbirth.Cdc.Checkpoint.Saves.{save_all, load-save_all}
use dbirth.Cdc.Checkpoint.Durability.{
  Ends, write_locked_atomic, IsSynced, save-IsSynced, reset-IsSynced, positions-save, retried_save,
}
use dbirth.Cdc.Checkpoint.Resets.{reset_unforced, reset_others, positions_of, reset_agrees}
use text.Mathlib.TextEquality.{eq_iff}

-- Texts as optional dicts: none is the empty text.
abbrev plain : Json
plain = record {
  Text = Option Positions;
  dumps = some;
  loads = λ t. elim t [ none ↦ undecodable | some d ↦ dict (ints d) ];
  is_empty = λ t. elim t [ none ↦ true | some d ↦ false ];
  dumps_nonempty = λ d. refl;
  reload = λ d. d;
  loads-dumps = λ d. refl;
  get-reload = λ d slot. refl;
}

abbrev healthy : Faults
healthy = record {
  mkstemp = false;
  fdopen = false;
  write = false;
  replace = false;
  dir_open = false;
  dir_sync = false;
  unlink = false;
}

abbrev no_replace : Faults
no_replace = record healthy { replace = true }

abbrev positions : Positions
positions = ("cdc", 40) ∷ ("audit", 7) ∷ []

abbrev disk : Disk (Option Positions)
disk = record { target = some (some positions); temp = absent; fd_open = false }

abbrev store : Store (Option Positions)
store = record { positions = positions; disk = disk; fsync = true }

opened : open_store plain true disk ≡ store
unfolding open_store
opened = refl

saved :
    (save plain healthy "cdc" 50 store).1.disk.target
    ≡ some (some (("cdc", 50) ∷ ("audit", 7) ∷ []))
unfolding save get put String-discrete
saved = refl

behind : save plain healthy "cdc" 30 store ≡ (ok tt, store)
unfolding save get put String-discrete
behind = refl

store-IsSynced : IsSynced plain store
unfolding open_store
store-IsSynced slot = refl

cdc-ne-audit : ◌≢◌ {A = String} "cdc" "audit"
cdc-ne-audit = ground (arith, eq_iff "cdc" "audit")

load-save_all_run :
    load "cdc" (save_all (("cdc", 9) ∷ ("audit", 99) ∷ ("cdc", 50) ∷ ("cdc", 41) ∷ []) positions)
    ≡ some 50
unfolding load get String-discrete
load-save_all_run =
    load-save_all "cdc" (("cdc", 9) ∷ ("audit", 99) ∷ ("cdc", 50) ∷ ("cdc", 41) ∷ []) positions

write_locked_atomic_example :
    Ends no_replace
      (some (("cdc", 50) ∷ []))
      disk.target
      (write_locked no_replace true (some (("cdc", 50) ∷ [])) disk)
write_locked_atomic_example =
    write_locked_atomic no_replace true (some (("cdc", 50) ∷ [])) disk refl refl

save-IsSynced_example : IsSynced plain (save plain healthy "cdc" 50 store).1
unfolding save get String-discrete
save-IsSynced_example = save-IsSynced plain healthy "cdc" 50 store store-IsSynced refl

reset-IsSynced_run : IsSynced plain (reset plain healthy "cdc" (some 40) none false store).1
unfolding reset get String-discrete
reset-IsSynced_run =
    reset-IsSynced plain healthy "cdc" (some 40) none false store store-IsSynced refl

memory_agrees :
    (save plain no_replace "cdc" 50 store).1.positions ≡ InMemory.save "cdc" 50 positions
memory_agrees = positions-save plain no_replace "cdc" 50 store

retried_save_example :
    let s' = (save plain no_replace "cdc" 50 store).1 in
    ((save plain no_replace "cdc" 50 store).0 ≡ err os_error)
    × (save plain healthy "cdc" 50 s' ≡ (ok tt, s'))
    × (s'.disk.target ≡ disk.target)
    × (load "cdc" s'.positions ≡ some 50)
unfolding load get String-discrete
retried_save_example = retried_save plain no_replace healthy "cdc" 50 store refl (omega arith)

reset_unforced_run :
    (◌≡◌ {A = Option ℕ} (some 40) (some 40))
    × (30 ≤ 40)
    × (load "cdc" (("cdc", 30) ∷ ("audit", 7) ∷ []) ≡ some 30)
unfolding InMemory.reset load get put String-discrete
reset_unforced_run =
    reset_unforced "cdc" (some 40) (some 30) 40 positions (("cdc", 30) ∷ ("audit", 7) ∷ []) refl
      refl

audit_kept : load "audit" (("audit", 7) ∷ []) ≡ load "audit" positions
unfolding InMemory.reset get remove String-discrete
audit_kept =
    reset_others "cdc" "audit" none none true positions (("audit", 7) ∷ []) cdc-ne-audit refl

reset_agrees_example :
    let memory = InMemory.reset "cdc" none (some 90) false positions in
    let (r, s') = reset plain healthy "cdc" none (some 90) false store in
    (s'.positions ≡ positions_of memory positions)
    × ((why : Refusal) → memory ≡ err why → r ≡ err (refused why))
reset_agrees_example = reset_agrees plain healthy "cdc" none (some 90) false store
