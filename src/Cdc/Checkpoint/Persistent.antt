-- ===== src/Cdc/Checkpoint/Persistent.antt =====
-- `PersistentCheckpointStore`: the positions in memory, the checkpoint file, and the temporary
-- file beside it. What the operating system refuses is an argument, `Faults`; the `json` module is
-- a parameter, `Json`.
use dbirth.Base.{
  ℕ, String, ◌≡◌, Bool, true, false, ◌&&◌, not, Option, none, some, [], ◌∷◌, if◌then◌else◌, leb,
  ltb, ◌==◌,
}
use dbirth.Base.Dict.{Dict, get, put, remove, string_key}
use dbirth.Base.Result.{Result, ok, err}
use dbirth.Cdc.Checkpoint.InMemory.{
  Positions, Refusal, missing, unexpected, exceeds, Verdict, keep, proceed, refuse,
}

-- A value in the checkpoint file: an integer, or anything else.
pub data Item : Type 0 where
  int : ℕ → Item
  other : Item

-- What `json.loads` makes of a text.
pub data Document : Type 0 where
  undecodable not_a_dict : Document
  dict : Dict String Item → Document

abbrev pub ints : Positions → Dict String Item
ints [] = []
ints (e ∷ d) = (e.0, int e.1) ∷ ints d

-- The `json` module: a dumped dict of integers loads as a dict with the same entries. `sort_keys`
-- may change their order.
pub record Json : Type 1 where
  pub Text : Type 0
  pub dumps : Positions → Text
  pub loads : Text → Document
  pub is_empty : Text → Bool
  pub dumps_nonempty : (d : Positions) → is_empty (dumps d) ≡ false
  pub reload : Positions → Positions
  pub loads-dumps : (d : Positions) → loads (dumps d) ≡ dict (ints (reload d))
  pub get-reload : (d : Positions) (slot : String) → get slot (reload d) ≡ get slot d

-- Which calls of `os` and `tempfile` raise `OSError` in one run of `_write_locked`.
pub record Faults : Type 0 where
  pub mkstemp : Bool
  pub fdopen : Bool
  pub write : Bool
  pub replace : Bool
  pub dir_open : Bool
  pub dir_sync : Bool
  pub unlink : Bool

-- The temporary file: none, one that is open or was cut short, or one with the whole text.
pub data TempFile (T : Type 0) : Type 0 where
  absent torn : TempFile T
  complete : T → TempFile T

pub record Disk (T : Type 0) : Type 0 where
  pub target : Option T
  pub temp : TempFile T
  pub fd_open : Bool

pub data Failure : Type 0 where
  os_error : Failure
  refused : Refusal → Failure

pub record Store (T : Type 0) : Type 0 where
  pub positions : Positions
  pub disk : Disk T
  pub fsync : Bool

-- `data.items()` with the entries that are not integers left out
unfoldable pub filtered : Dict String Item → Positions
filtered [] = []
filtered ((slot, int lsn) ∷ d) = (slot, lsn) ∷ filtered d
filtered ((slot, other) ∷ d) = filtered d

-- `expected_lsn not in (None, current)`, where there is no current position
abbrev guard_missing : Option ℕ → Verdict → Verdict
guard_missing none otherwise = otherwise
guard_missing (some _) otherwise = refuse missing

-- `expected_lsn is None or expected_lsn != current`
abbrev is_unexpected : Option ℕ → ℕ → Bool
is_unexpected none current = true
is_unexpected (some lsn) current = not (lsn == current)

-- `new_lsn is not None and new_lsn > current`
abbrev is_beyond : Option ℕ → ℕ → Bool
is_beyond none current = false
is_beyond (some lsn) current = ltb current lsn

abbrev guard_current : Option ℕ → Option ℕ → ℕ → Verdict
guard_current new expected current =
    if is_unexpected expected current
    then refuse unexpected
    else if is_beyond new current
    then refuse exceeds
    else proceed

-- The guards of this store's `reset`, on the current position, `new_lsn`, `expected_lsn` and `force`.
unfoldable pub reset_guards : Option ℕ → Option ℕ → Option ℕ → Bool → Verdict
reset_guards none none expected force = if force then keep else guard_missing expected keep
reset_guards none (some _) expected force =
    if force then proceed else guard_missing expected proceed
reset_guards (some current) new expected force =
    if force then proceed else guard_current new expected current

-- What is written after the guards; none is the early return where there is nothing to take out.
unfoldable pub reset_positions : String → Option ℕ → Option ℕ → Positions → Option Positions
reset_positions slot none none positions = none
reset_positions slot (some _) none positions = some (remove slot positions)
reset_positions slot current (some lsn) positions = some (put slot lsn positions)

module _ {T : Type 0} where
  -- the `finally` block: the descriptor is closed, and the temporary file unlinked if that works
  unfoldable pub cleanup : Faults → Disk T → Disk T
  cleanup faults disk = record disk {
    temp = if faults.unlink then disk.temp else absent;
    fd_open = false;
  }

  -- `_write_locked`, on the text to write
  unfoldable pub write_locked : Faults → Bool → T → Disk T → Result Failure (Unit {0}) × Disk T
  unfolding cleanup
  write_locked faults fsync text disk =
      if faults.mkstemp
      then (err os_error, disk)
      else if faults.fdopen
      then (err os_error, cleanup faults (record disk { temp = torn; fd_open = true }))
      else if faults.write
      then (err os_error, cleanup faults (record disk { temp = torn }))
      else if faults.replace
      then (err os_error, cleanup faults (record disk { temp = complete text }))
      else if fsync && (not faults.dir_open && faults.dir_sync)
      then (err os_error, record disk { target = some text; temp = absent })
      else (ok tt, record disk { target = some text; temp = absent })

module _ (json : Json) where
  open json use {Text, dumps, loads, is_empty}

  -- `_load_from_disk`: `raw` is none if the file is missing or cannot be read
  unfoldable pub load_from_disk : Option Text → Positions
  unfolding filtered
  load_from_disk none = []
  load_from_disk (some raw) =
      let parsed : Positions = elim (loads raw) [ dict d ↦ filtered d | _ ↦ [] ] in
      if is_empty raw then [] else parsed

  -- the constructor
  unfoldable pub open_store : Bool → Disk Text → Store Text
  unfolding load_from_disk
  open_store fsync disk = record {
    positions = load_from_disk disk.target;
    disk = disk;
    fsync = fsync;
  }

  unfoldable pub load : String → Store Text → Option ℕ
  load slot s = get slot s.positions

  -- an assignment of `_positions` and the write that follows it
  unfoldable pub commit : Faults → Positions → Store Text → Result Failure (Unit {0}) × Store Text
  unfolding write_locked
  commit faults positions s =
      let (r, disk') = write_locked faults s.fsync (dumps positions) s.disk in
      (r, record s { positions = positions; disk = disk' })

  unfoldable pub save : Faults → String → ℕ → Store Text → Result Failure (Unit {0}) × Store Text
  unfolding commit
  save faults slot lsn s =
      let written = commit faults (put slot lsn s.positions) s in
      elim (get slot s.positions) [
        | none ↦ written
        | some current ↦ if leb lsn current then (ok tt, s) else written
      ]

  unfoldable pub reset :
      Faults
      → String
      → Option ℕ
      → Option ℕ
      → Bool
      → Store Text
      → Result Failure (Unit {0}) × Store Text
  unfolding reset_guards reset_positions commit
  reset faults slot expected new force s =
      elim (reset_guards (get slot s.positions) new expected force) [
        | keep ↦ (ok tt, s)
        | refuse r ↦ (err (refused r), s)
        | proceed ↦ elim (reset_positions slot (get slot s.positions) new s.positions) [
          | none ↦ (ok tt, s)
          | some positions ↦ commit faults positions s
        ]
      ]
