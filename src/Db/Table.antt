-- ===== src/Db/Table.antt =====
-- A table with a serial primary key, and what the repository's statements do to it. `conflicts` says
-- whether two rows break a unique constraint, and `legal` whether a row keeps the check and foreign
-- key constraints.
use dbirth.Base.{
  ℕ, ◌+◌, ◌≡◌, ◌≢◌, refl, Bool, true, false, ◌||◌, Option, none, some, [], ◌∷◌, if◌then◌else◌,
  arith, Bool-cases, ◌⊎◌, inl, inr, ◌==◌, not,
}
use dbirth.Base.Dict.{Dict, get, put, nat_key, get-put}

pub record Table (R : Type 0) : Type 0 where
  pub rows : Dict ℕ R
  pub next_id : ℕ

module _ {R : Type 0} where
  -- `SELECT ... WHERE ...` and `fetchone`: the first row, with its key
  unfoldable pub select_one : (R → Bool) → Dict ℕ R → Option (ℕ × R)
  select_one test [] = none
  select_one test ((id, row) ∷ rows) =
      let rest = select_one test rows in if test row then some (id, row) else rest

module _ {R : Type 0} (conflicts : R → R → Bool) (legal : R → Bool) where
  -- whether a row breaks a unique constraint with one of the others
  unfoldable pub breaks : ℕ → R → Dict ℕ R → Bool
  breaks id row [] = false
  breaks id row ((j, other) ∷ rows) =
      let rest = breaks id row rows in if j == id then rest else conflicts row other || rest

  -- `UPDATE ... WHERE id = ... RETURNING ...`; none is a broken constraint
  unfoldable pub update_row : ℕ → R → Table R → Option (Table R)
  update_row id row t =
      if breaks id row t.rows || not (legal row)
      then none
      else some (record t { rows = put id row t.rows })

  -- `INSERT ... RETURNING ...`: the new key, or none for a broken constraint, which uses up the key
  unfoldable pub insert_row : R → Table R → Option ℕ × Table R
  insert_row row t =
      if breaks t.next_id row t.rows || not (legal row)
      then (none, record t { next_id = t.next_id + 1 })
      else (some t.next_id, record { rows = put t.next_id row t.rows; next_id = t.next_id + 1 })

module _ {R : Type 0} where
  -- A row that is written is found by whatever holds of it, if nothing or the row of that key was
  -- found before.
  pub select_one-put :
      (test : R → Bool) (id : ℕ) (row : R) (rows : Dict ℕ R)
      → test row ≡ true
      → select_one test rows ≡ none
      → select_one test (put id row rows) ≡ some (id, row)
  unfolding select_one put
  select_one-put test id row [] h e = ground (arith, h)
  select_one-put test id row ((j, other) ∷ rows) h e =
      ground (arith, h, e, select_one-put test id row rows)

  pub select_one-put_found :
      (test : R → Bool) (id : ℕ) (row old : R) (rows : Dict ℕ R)
      → test row ≡ true
      → select_one test rows ≡ some (id, old)
      → select_one test (put id row rows) ≡ some (id, row)
  unfolding select_one put
  select_one-put_found test id row old [] h e = absurd (cc)
  select_one-put_found test id row old ((j, other) ∷ rows) h e =
      ground (arith, h, e, select_one-put_found test id row old rows h)

  -- What a write under one key leaves of the others.
  pub get-put_other :
      (id j : ℕ) (row : R) (rows : Dict ℕ R) → id ≢ j → get j (put id row rows) ≡ get j rows
  get-put_other id j row rows h = ground (arith, get-put id j row rows)

  pub select_one-holds :
      (test : R → Bool) (id : ℕ) (row : R) (rows : Dict ℕ R)
      → select_one test rows ≡ some (id, row)
      → test row ≡ true
  unfolding select_one
  select_one-holds test id row [] e = absurd (cc)
  select_one-holds test id row ((j, other) ∷ rows) e =
      ground (arith, e, select_one-holds test id row rows)

module _ {R : Type 0} (conflicts : R → R → Bool) (legal : R → Bool) where
  pub update_row-cases :
      (id : ℕ) (row : R) (t : Table R)
      → (update_row conflicts legal id row t ≡ none)
        ⊎ (update_row conflicts legal id row t ≡ some (record t { rows = put id row t.rows }))
  unfolding update_row
  update_row-cases id row t =
      elim (Bool-cases (breaks conflicts legal id row t.rows || not (legal row))) [
        | inl e ↦ inl (rw (e, update_row) refl)
        | inr e ↦ inr (rw (e, update_row) refl)
      ]

  -- How an insert ends: it uses up the key, with the row under it or without.
  abbrev pub InsertEnds : R → Table R → Option ℕ × Table R → Type 0
  InsertEnds row t r =
      ((r.0 ≡ none) × (r.1.rows ≡ t.rows))
      ⊎ ((r.0 ≡ some t.next_id) × (r.1.rows ≡ put t.next_id row t.rows))

  pub insert_row-Ends :
      (row : R) (t : Table R) → InsertEnds row t (insert_row conflicts legal row t)
  unfolding insert_row
  insert_row-Ends row t =
      elim (Bool-cases (breaks conflicts legal t.next_id row t.rows || not (legal row))) [
        | inl e ↦ rw (e, insert_row) (inl (refl, refl))
        | inr e ↦ rw (e, insert_row) (inr (refl, refl))
      ]
