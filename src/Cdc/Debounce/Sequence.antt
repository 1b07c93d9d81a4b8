-- ===== src/Cdc/Debounce/Sequence.antt =====
-- The list `_sequence` beside the dict `_entries`: removal and lookup of positions.
use dbirth.Base.{
  ℕ, suc, ◌≤◌, String, ◌≡◌, refl, ap, ◌∙◌, false, Option, none, some, List, [], ◌∷◌, arith,
  Bool-cases, inl, inr,
}
use dbirth.Base.Dict.{Dict, get, remove, keys, contains, IsDistinct, string_key, String-discrete}
use dbirth.Base.Dict.Keys.{remove_absent}
use dbirth.Cdc.Debounce.{DebounceEntry, remove_first}
use dbirth.Cdc.Debounce.Due.{
  index_from, decorate, insert_decorated, sort_decorated, undecorate, sort_by_sequence, is_due,
  due_keys,
}
use native.Mathlib.Nat.{le_refl, le_trans}

module _ {V : Type 0} where
  -- Removing a key from the list of keys is removing its entry from the dict.
  pub remove_first-keys :
      (k : String) (v : V) (d : Dict String V)
      → IsDistinct (keys d)
      → get k d ≡ some v
      → remove_first k (keys d) ≡ some (keys (remove k d))
  unfolding remove_first get remove
  remove_first-keys k v [] u h = absurd (cc)
  remove_first-keys k v (e ∷ d) u h = elim (String-discrete e.0 k) [
    | yes p ↦ ground (arith, remove_absent e.0 d u.0)
    | no p ↦ ground (arith, remove_first-keys k v d u.1)
  ]

-- Positions that grow along a list of pairs, from a lower bound on.
abbrev pub Ascends : ℕ → List (ℕ × String) → Type 0
Ascends low [] = Unit
Ascends low (p ∷ ps) = (low ≤ p.0) × Ascends p.0 ps

insert_ascending :
    (p : ℕ × String) (ps : List (ℕ × String)) → Ascends p.0 ps → insert_decorated p ps ≡ p ∷ ps
unfolding insert_decorated
insert_ascending p [] a = refl
insert_ascending p (q ∷ qs) a = ground (arith)

sort_ascending : (low : ℕ) (ps : List (ℕ × String)) → Ascends low ps → sort_decorated ps ≡ ps
unfolding sort_decorated
sort_ascending low [] a = refl
sort_ascending low (p ∷ ps) a = rw (sort_ascending p.0 ps a.1) (insert_ascending p ps a.1)

-- `decorate`, from any position of the list's head.
abbrev decorate_from : ℕ → List String → List String → Option (List (ℕ × String))
decorate_from i sequence [] = some []
decorate_from i sequence (k ∷ ks) =
    let rest = decorate_from i sequence ks in
    elim (index_from i k sequence) [
      | none ↦ none
      | some j ↦ elim rest [ none ↦ none | some l ↦ some ((j, k) ∷ l) ]
    ]

decorate-eq-from : (sequence ks : List String) → decorate sequence ks ≡ decorate_from 0 sequence ks
unfolding decorate
decorate-eq-from sequence [] = refl
decorate-eq-from sequence (k ∷ ks) = ground (arith, decorate-eq-from sequence ks)

-- Keys that are not the head of the list are found in its tail.
decorate_from-tail :
    (i : ℕ) (x : String) (xs ks : List String)
    → contains x ks ≡ false
    → decorate_from i (x ∷ xs) ks ≡ decorate_from (suc i) xs ks
unfolding contains index_from
decorate_from-tail i x xs [] h = refl
decorate_from-tail i x xs (k ∷ ks) h = ground (arith, decorate_from-tail i x xs ks)

Ascends-lower : (low i : ℕ) (ps : List (ℕ × String)) → low ≤ i → Ascends i ps → Ascends low ps
Ascends-lower low i [] h a = tt
Ascends-lower low i (p ∷ ps) h a = (le_trans h a.0, a.1)

module _ {V X : Type 0} (current window : ℕ) where
  contains-due_keys :
      (k : String) (d : Dict String (DebounceEntry V X))
      → contains k (keys d) ≡ false
      → contains k (due_keys current window d) ≡ false
  unfolding contains due_keys
  contains-due_keys k [] h = refl
  contains-due_keys k (e ∷ d) h = ground (arith, contains-due_keys k d)

  decorate_due :
      (i : ℕ) (d : Dict String (DebounceEntry V X))
      → IsDistinct (keys d)
      → (l : List (ℕ × String)) × (decorate_from i (keys d) (due_keys current window d) ≡ some l)
        × Ascends i l
        × (undecorate l ≡ due_keys current window d)
  unfolding due_keys index_from
  decorate_due i [] u = ([], refl, tt, refl)
  decorate_due i ((k, e) ∷ d) u =
      let (l, found, up, same) = decorate_due (suc i) d u.1 in
      let tail =
        decorate_from-tail i k (keys d) (due_keys current window d) (contains-due_keys k d u.0) in
      elim (Bool-cases (is_due current window e)) [
        | inl due ↦
            rw (due, due_keys)
              (
                (i, k) ∷ l,
                ground (arith, tail, found),
                (le_refl i, Ascends-lower i (suc i) l (omega arith) up),
                ap (λ q. k ∷ q) same,
              )
        | inr quiet ↦
            rw (quiet, due_keys) (l, tail ∙ found, Ascends-lower i (suc i) l (omega arith) up, same)
      ]

  -- The ready keys come out of the sort as they stand in the dict.
  pub sort_due :
      (d : Dict String (DebounceEntry V X))
      → IsDistinct (keys d)
      → sort_by_sequence (keys d) (due_keys current window d) ≡ some (due_keys current window d)
  unfolding sort_by_sequence
  sort_due d u =
      let (l, found, up, same) = decorate_due 0 d u in
      ground (
        arith,
        decorate-eq-from (keys d) (due_keys current window d),
        found,
        sort_ascending 0 l up,
        same,
      )
