-- ===== src/Cdc/Checkpoint/Saves.antt =====
-- What a run of `save` leaves in the store, whatever the order of the calls.
use dbirth.Base.{ℕ, max, String, ◌≡◌, refl, ap, ◌∙◌, Option, none, some, List, [], ◌∷◌, arith, ite}
use dbirth.Base.Dict.{get-put, string_key, String-discrete}
use dbirth.Cdc.Checkpoint.InMemory.{Positions, load, save}

-- The larger of a stored position and a new one.
abbrev pub raise_to : ℕ → Option ℕ → ℕ
raise_to lsn none = lsn
raise_to lsn (some current) = max current lsn

abbrev pub Call : Type 0
Call = String × ℕ

pub save_all : List Call → Positions → Positions
save_all [] positions = positions
save_all ((slot, lsn) ∷ calls) positions = save_all calls (save slot lsn positions)

-- The greatest number that the calls carry for a slot, with the one stored at the start.
abbrev pub greatest : String → List Call → Option ℕ → Option ℕ
greatest slot [] stored = stored
greatest slot ((s, lsn) ∷ calls) stored =
    greatest slot calls (ite (String-discrete s slot) (some (raise_to lsn stored)) stored)

pub load-save :
    (slot s : String) (lsn : ℕ) (positions : Positions)
    → load slot (save s lsn positions)
      ≡ ite
          (String-discrete s slot)
          (some (raise_to lsn (load slot positions)))
          (load slot positions)
unfolding load save
load-save slot s lsn positions = ground (arith, get-put s slot lsn positions)

-- After any run of saves a slot holds the greatest number that it was ever given: a late, smaller
-- number never moves it back, and the numbers of other slots play no part.
pub load-save_all :
    (slot : String) (calls : List Call) (positions : Positions)
    → load slot (save_all calls positions) ≡ greatest slot calls (load slot positions)
unfolding save_all
load-save_all slot [] positions = refl
load-save_all slot ((s, lsn) ∷ calls) positions =
    load-save_all slot calls (save s lsn positions)
    ∙ ap (greatest slot calls) (load-save slot s lsn positions)
