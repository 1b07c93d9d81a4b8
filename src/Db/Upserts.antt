-- ===== src/Db/Upserts.antt =====
-- What every upsert of the repository shares: how it ends, and what it leaves in its table.
use mathlib.Core.Path.{subst}
use dbirth.Base.{ℕ, ◌≡◌, ◌≢◌, inl, inr, refl, sym, ap, ◌∙◌, Bool, true, Option, none, some}
use dbirth.Base.Dict.{get, put, nat_key}
use dbirth.Base.Result.{Result, ok, err}
use dbirth.Db.Table.{Table, select_one, update_row, get-put_other, update_row-cases, InsertEnds}

pub data Status : Type 0 where
  inserted updated noop : Status

pub data RepositoryError : Type 0 where
  upsert_failed : RepositoryError

abbrev pub Upserted : Type 0 → Type 0
Upserted R = Result RepositoryError (Status × ℕ × R) × Table R

-- the result of an update, or its error
abbrev pub finish_update : {R : Type 0} → ℕ → R → Table R → Option (Table R) → Upserted R
finish_update id row t none = (err upsert_failed, t)
finish_update id row t (some t') = (ok (updated, id, row), t')

abbrev pub finish_insert : {R : Type 0} → R → Option ℕ × Table R → Upserted R
finish_insert row (none, t) = (err upsert_failed, t)
finish_insert row (some id, t) = (ok (inserted, id, row), t)

module _ {R : Type 0} (test equal : R → Bool) (t : Table R) where
  -- What an upsert comes to. One that fails leaves the rows alone. One that returns leaves a row
  -- that the search finds and that equals the payload, and every other row as it was; a noop leaves
  -- the whole table.
  abbrev pub Stored : Upserted R → Type 0
  Stored (err e, t') = t'.rows ≡ t.rows
  Stored (ok (status, id, row), t') =
      (select_one test t'.rows ≡ some (id, row))
      × (equal row ≡ true)
      × ((j : ℕ) → id ≢ j → get j t'.rows ≡ get j t.rows)
      × (status ≡ noop → t' ≡ t)

  -- A row that can be written under a key: the search finds it there, and it equals the payload.
  pub record Fits (id : ℕ) (row : R) : Type 0 where
    pub found : select_one test (put id row t.rows) ≡ some (id, row)
    pub same : equal row ≡ true

module _ {R : Type 0} (conflicts : R → R → Bool) (legal test equal : R → Bool) (t : Table R) where
  pub update-Stored :
      (id : ℕ) (row : R)
      → Fits test equal t id row
      → Stored test equal t (finish_update id row t (update_row conflicts legal id row t))
  update-Stored id row f = elim (update_row-cases conflicts legal id row t) [
    | inl e ↦ subst (λ r. Stored test equal t (finish_update id row t r)) (sym e) refl
    | inr e ↦
        subst (λ r. Stored test equal t (finish_update id row t r)) (sym e)
          (f.found, f.same, λ j n. get-put_other id j row t.rows n, λ e. absurd (cc))
  ]

  pub insert_ends :
      (row : R) (r : Option ℕ × Table R)
      → Fits test equal t t.next_id row
      → InsertEnds conflicts legal row t r
      → Stored test equal t (finish_insert row r)
  insert_ends row (none, t') f (inl (e, kept)) = kept
  insert_ends row (some id, t') f (inl (e, kept)) = absurd (cc)
  insert_ends row (none, t') f (inr (e, written)) = absurd (cc)
  insert_ends row (some id, t') f (inr (e, written)) =
      let key : t.next_id ≡ id = sym (cc (e)) in
      (
        ap (select_one test) written ∙ f.found ∙ ap (λ i. some (i, row)) key,
        f.same,
        λ j n. ap (get j) written ∙ get-put_other t.next_id j row t.rows (λ h. n (sym key ∙ h)),
        λ h. absurd (cc),
      )
