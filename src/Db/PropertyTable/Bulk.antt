-- ===== src/Db/PropertyTable/Bulk.antt =====
-- What a bulk upsert of properties leaves in the table, and that a second one writes nothing.
use mathlib.Core.Path.{subst}
use dbirth.Base.{
  ℕ, ◌+◌, ◌≡◌, ◌≢◌, refl, ◌∙◌, arith, Bool, true, false, not, ◌&&◌, Option, none, some, List, [],
  ◌∷◌, if◌then◌else◌, All,
}
use dbirth.Base.Dict.{Dict, keys, get, put, get-put, contains, IsDistinct}
use dbirth.Base.Options.{◌>>=◌, bind_some}
use dbirth.Db.Properties.{Conversions}
use dbirth.Db.PropertyTable.{
  PropertyKey, property_key, Row, keeps_check, place_beside, place, place_all,
}

module _ {V N F : Type 0} (c : Conversions V N F) (equal : Row N F → Row N F → Bool)
    (known : ℕ → Bool) where
  -- the table has a row of the key that the comparison finds equal, and that keeps the constraint
  pub record Stored (r : PropertyKey × Row N F) (t : Dict PropertyKey (Row N F)) : Type 0 where
    pub row : Row N F
    pub found : get r.0 t ≡ some row
    pub same : equal row r.1 ≡ true
    pub checked : keeps_check c r.1 ≡ true

  -- what a statement makes of its rows
  pub record Placed (rows : List (PropertyKey × Row N F)) (t t' : Dict PropertyKey (Row N F))
      : Type 0 where
    pub stored : All (λ r. Stored r t') rows
    pub others : (j : PropertyKey) → contains j (keys rows) ≡ false → get j t' ≡ get j t

  -- what one row makes of a table
  record One (k : PropertyKey) (row : Row N F) (t t' : Dict PropertyKey (Row N F)) : Type 0 where
    kept_row : Row N F
    now : get k t' ≡ some kept_row
    equal_row : equal kept_row row ≡ true
    away : (j : PropertyKey) → k ≢ j → get j t' ≡ get j t

  module _ (same_row : (r : Row N F) → equal r r ≡ true) where
    written :
        (k : PropertyKey) (row : Row N F) (t : Dict PropertyKey (Row N F))
        → One k row t (put k row t)
    written k row t = record {
      kept_row = row;
      now = get-put k k row t ∙ ground arith;
      equal_row = same_row row;
      away = λ j n. get-put k j row t ∙ ground (arith, n);
    }

    abbrev written_or_kept :
        Bool → PropertyKey → Row N F → Dict PropertyKey (Row N F) → ℕ × Dict PropertyKey (Row N F)
    written_or_kept b k row t = if b then (0, t) else (1, put k row t)

    or_kept :
        (b : Bool) (k : PropertyKey) (row existing : Row N F) (t : Dict PropertyKey (Row N F))
        → get k t ≡ some existing
        → equal existing row ≡ b
        → One k row t (written_or_kept b k row t).1
    or_kept true k row existing t e h = record {
      kept_row = existing;
      now = e;
      equal_row = h;
      away = λ j n. refl;
    }
    or_kept false k row existing t e h = written k row t

    when_known :
        (b : Bool) (k : PropertyKey) (row : Row N F) (t : Dict PropertyKey (Row N F))
        (r : ℕ × Dict PropertyKey (Row N F))
        → (if b then some (1, put k row t) else none) ≡ some r
        → One k row t r.1
    when_known true k row t r e =
        let made : (1, put k row t) ≡ r = cc (e) in
        subst (λ x. One k row t x.1) made (written k row t)
    when_known false k row t r e = absurd (cc (e))

    beside-One :
        (old : Option (Row N F)) (k : PropertyKey) (row : Row N F) (t : Dict PropertyKey (Row N F))
        (r : ℕ × Dict PropertyKey (Row N F))
        → get k t ≡ old
        → place_beside c equal known old k row t ≡ some r
        → One k row t r.1
    beside-One none k row t r e h = when_known (known k.metric_id) k row t r h
    beside-One (some existing) k row t r e h =
        let made : written_or_kept (equal existing row) k row t ≡ r = cc (h) in
        subst (λ x. One k row t x.1) made (or_kept (equal existing row) k row existing t e refl)

    -- what a row that is placed tells
    placed_row :
        (check met : Bool) (k : PropertyKey) (row : Row N F) (t : Dict PropertyKey (Row N F))
        (r : ℕ × Dict PropertyKey (Row N F))
        → (if check && not met then place_beside c equal known (get k t) k row t else none) ≡ some r
        → (check ≡ true) × One k row t r.1
    placed_row true false k row t r h = (refl, beside-One (get k t) k row t r refl h)
    placed_row true true k row t r h = absurd (cc (h))
    placed_row false met k row t r h = absurd (cc (h))

    pub kept_stored :
        (r : PropertyKey × Row N F) (rows : List (PropertyKey × Row N F))
        (t t' : Dict PropertyKey (Row N F))
        → Placed rows t t'
        → contains r.0 (keys rows) ≡ false
        → Stored r t
        → Stored r t'
    kept_stored r rows t t' p h s = record {
      row = s.row;
      found = p.others r.0 h ∙ s.found;
      same = s.same;
      checked = s.checked;
    }

    absent_rest :
        (j k : PropertyKey) (ks : List PropertyKey)
        → contains j (k ∷ ks) ≡ false
        → (k ≢ j) × (contains j ks ≡ false)
    unfolding contains
    absent_rest j k ks h = (λ p. ground (arith, h, p), ground (arith, h))

    Placed-cons :
        (k : PropertyKey) (row : Row N F) (rows : List (PropertyKey × Row N F))
        (t t₁ t₂ : Dict PropertyKey (Row N F))
        → keeps_check c row ≡ true
        → contains k (keys rows) ≡ false
        → One k row t t₁
        → Placed rows t₁ t₂
        → Placed ((k, row) ∷ rows) t t₂
    Placed-cons k row rows t t₁ t₂ check absent one rest = record {
      stored = (
        kept_stored (k, row) rows t₁ t₂ rest absent
            (record { row = one.kept_row; found = one.now; same = one.equal_row; checked = check }),
        rest.stored,
      );
      others = λ j h.
          let away = absent_rest j k (keys rows) h in rest.others j away.1 ∙ one.away j away.0;
    }

    pub all-Placed :
        (met : List PropertyKey) (rows : List (PropertyKey × Row N F))
        (t : Dict PropertyKey (Row N F)) (r : ℕ × Dict PropertyKey (Row N F))
        → IsDistinct (keys rows)
        → place_all c equal known met rows t ≡ some r
        → Placed rows t r.1
    unfolding place_all
    all-Placed met [] t r u h =
        let made : (0, t) ≡ r = cc (h) in
        subst (λ x. Placed [] t x.1) made (record { stored = tt; others = λ j n. refl })
    all-Placed met (e ∷ rows) t r u h =
        let one =
          bind_some (place c equal known met e.0 e.1 t)
            (λ x. place_all c equal known (e.0 ∷ met) rows x.1 >>= (λ y. some (x.0 + y.0, y.1))) r
            h in
        let rest =
          bind_some (place_all c equal known (e.0 ∷ met) rows one.0.1)
            (λ y. some (one.0.0 + y.0, y.1)) r one.2 in
        let made : (one.0.0 + rest.0.0, rest.0.1) ≡ r = cc (rest.2) in
        let first = placed_row (keeps_check c e.1) (contains e.0 met) e.0 e.1 t one.0 one.1 in
        subst (λ x. Placed (e ∷ rows) t x.1) made
          (Placed-cons e.0 e.1 rows t one.0.1 rest.0.1 first.0 u.0 first.1
            (all-Placed (e.0 ∷ met) rows one.0.1 rest.0 u.1 rest.1))
