-- ===== src/Db/PropertyTable/Again.antt =====
-- The batches of a bulk upsert, and a second run over the rows that it made.
use mathlib.Core.Path.{subst, ap₂}
use dbirth.Base.{
  ℕ, zero, suc, ◌+◌, ◌≤◌, ◌≡◌, ◌≢◌, refl, sym, ap, ◌∙◌, arith, Bool, true, false, not, ◌&&◌, Option,
  none, some, List, [], ◌∷◌, ◌++◌, ◌==◌, if◌then◌else◌, length, take, drop, take-append-drop,
  length-drop, All, All-append,
}
use dbirth.Base.Dict.Items.{All-absent-cons, split-IsDistinct, contains_parts}
use dbirth.Base.Dict.{Dict, keys, keys-append, get, put, contains, IsDistinct}
use dbirth.Base.Options.{◌>>=◌, bind_some}
use dbirth.Base.Result.{ok, err}
use dbirth.Db.Properties.{Conversions}
use dbirth.Db.PropertyTable.Bulk.{Stored, Placed, kept_stored, all-Placed}
use dbirth.Db.PropertyTable.{
  PropertyKey, property_key, bad_batch_size, Row, keeps_check, place_beside, place_all,
  place_batches, bulk_ended, bulk_rows,
}

module _ {K : Type 0} where
  All-parts : (P : K → Type 0) (xs ys : List K) → All P (xs ++ ys) → All P xs × All P ys
  All-parts P [] ys h = (tt, h)
  All-parts P (x ∷ xs) ys h = let rest = All-parts P xs ys h.1 in ((h.0, rest.0), rest.1)

module _ {V N F : Type 0} (c : Conversions V N F) (equal : Row N F → Row N F → Bool)
    (known : ℕ → Bool) where
  module _ (same_row : (r : Row N F) → equal r r ≡ true) where
    kept_all :
        (xs ys : List (PropertyKey × Row N F)) (t t' : Dict PropertyKey (Row N F))
        → Placed c equal known ys t t'
        → All (λ k. contains k (keys ys) ≡ false) (keys xs)
        → All (λ r. Stored c equal known r t) xs
        → All (λ r. Stored c equal known r t') xs
    kept_all [] ys t t' p h s = tt
    kept_all (x ∷ xs) ys t t' p h s =
        (kept_stored c equal known same_row x ys t t' p h.0 s.0, kept_all xs ys t t' p h.1 s.1)

    Placed-append :
        (xs ys : List (PropertyKey × Row N F)) (t t₁ t₂ : Dict PropertyKey (Row N F))
        → All (λ k. contains k (keys ys) ≡ false) (keys xs)
        → Placed c equal known xs t t₁
        → Placed c equal known ys t₁ t₂
        → Placed c equal known (xs ++ ys) t t₂
    Placed-append xs ys t t₁ t₂ away p q = record {
      stored =
          All-append (λ r. Stored c equal known r t₂) xs ys (kept_all xs ys t₁ t₂ q away p.stored)
            q.stored;
      others = λ j h.
          let parts =
            contains_parts j (keys xs) (keys ys) (ap (contains j) (sym (keys-append xs ys)) ∙ h) in
          q.others j parts.1 ∙ p.others j parts.0;
    }

    batches-Placed :
        (fuel size : ℕ) (rows : List (PropertyKey × Row N F)) (t : Dict PropertyKey (Row N F))
        (r : ℕ × Dict PropertyKey (Row N F))
        → length rows ≤ fuel
        → size ≢ 0
        → IsDistinct (keys rows)
        → place_batches c equal known fuel size rows t ≡ some r
        → Placed c equal known rows t r.1
    unfolding place_batches
    batches-Placed zero size [] t r l s u h =
        let made : (0, t) ≡ r = cc (h) in
        subst (λ x. Placed c equal known [] t x.1) made
          (record { stored = tt; others = λ j n. refl })
    batches-Placed zero size (e ∷ rows) t r l s u h = absurd (omega (arith, l))
    batches-Placed (suc fuel) size [] t r l s u h =
        let made : (0, t) ≡ r = cc (h) in
        subst (λ x. Placed c equal known [] t x.1) made
          (record { stored = tt; others = λ j n. refl })
    batches-Placed (suc fuel) size (e ∷ rows) t r l s u h =
        let whole = e ∷ rows in
        let one =
          bind_some (place_all c equal known [] (take size whole) t)
            (λ x.
              place_batches c equal known fuel size (drop size whole) x.1
              >>= (λ y. some (x.0 + y.0, y.1)))
            r h in
        let rest =
          bind_some (place_batches c equal known fuel size (drop size whole) one.0.1)
            (λ y. some (one.0.0 + y.0, y.1)) r one.2 in
        let made : (one.0.0 + rest.0.0, rest.0.1) ≡ r = cc (rest.2) in
        let joined = take-append-drop size whole in
        let parts = split-IsDistinct (keys (take size whole)) (keys (drop size whole)) (
          subst IsDistinct (keys-append (take size whole) (drop size whole))
            (subst (λ l. IsDistinct (keys l)) (sym joined) u)) in
        let placed =
          Placed-append (take size whole) (drop size whole) t one.0.1 rest.0.1 parts.2
            (all-Placed c equal known same_row [] (take size whole) t one.0 parts.0 one.1)
            (batches-Placed fuel size (drop size whole) one.0.1 rest.0
              (omega (arith, l, s, length-drop size whole)) s parts.1 rest.1) in
        subst (λ x. Placed c equal known whole t x.1) made
          (subst (λ l. Placed c equal known l t rest.0.1) joined placed)

  -- a row that is stored is placed again without a write
  again_beside :
      (old : Option (Row N F)) (r : PropertyKey × Row N F) (t : Dict PropertyKey (Row N F))
      (s : Stored c equal known r t)
      → old ≡ some s.row
      → place_beside c equal known old r.0 r.1 t ≡ some (0, t)
  again_beside none r t s e = absurd (cc (e))
  again_beside (some existing) r t s e =
      let same : existing ≡ s.row = cc (e) in
      let holds : equal existing r.1 ≡ true = ap (λ x. equal x r.1) same ∙ s.same in
      ap (λ b. some (if b then (0, t) else (1, put r.0 r.1 t))) holds

  again_one :
      (check met : Bool) (r : PropertyKey × Row N F) (t : Dict PropertyKey (Row N F))
      → check ≡ true
      → met ≡ false
      → Stored c equal known r t
      → (if check && not met then place_beside c equal known (get r.0 t) r.0 r.1 t else none)
        ≡ some (0, t)
  again_one true true r t p q s = absurd (cc (q))
  again_one true false r t p q s = again_beside (get r.0 t) r t s s.found
  again_one false met r t p q s = absurd (cc (p))

  again_all :
      (met : List PropertyKey) (rows : List (PropertyKey × Row N F))
      (t : Dict PropertyKey (Row N F))
      → IsDistinct (keys rows)
      → All (λ k. contains k met ≡ false) (keys rows)
      → All (λ r. Stored c equal known r t) rows
      → place_all c equal known met rows t ≡ some (0, t)
  unfolding place_all
  again_all met [] t u away s = refl
  again_all met (e ∷ rows) t u away s =
      ap
        (λ o.
          o
          >>= (λ x. place_all c equal known (e.0 ∷ met) rows x.1 >>= (λ y. some (x.0 + y.0, y.1))))
        (again_one (keeps_check c e.1) (contains e.0 met) e t s.0.checked away.0 s.0)
      ∙ ap (λ o. o >>= (λ y. some (0 + y.0, y.1)))
          (again_all (e.0 ∷ met) rows t u.1 (All-absent-cons e.0 met (keys rows) u.0 away.1) s.1)
      ∙ refl

  none_met : (ks : List PropertyKey) → All (λ k. contains k [] ≡ false) ks
  unfolding contains
  none_met [] = tt
  none_met (k ∷ ks) = (refl, none_met ks)

  again_batches :
      (fuel size : ℕ) (rows : List (PropertyKey × Row N F)) (t : Dict PropertyKey (Row N F))
      → IsDistinct (keys rows)
      → All (λ r. Stored c equal known r t) rows
      → place_batches c equal known fuel size rows t ≡ some (0, t)
  unfolding place_batches
  again_batches zero size rows t u s = refl
  again_batches (suc fuel) size [] t u s = refl
  again_batches (suc fuel) size (e ∷ rows) t u s =
      let whole = e ∷ rows in
      let joined = take-append-drop size whole in
      let parts = split-IsDistinct (keys (take size whole)) (keys (drop size whole)) (
        subst IsDistinct (keys-append (take size whole) (drop size whole))
          (subst (λ l. IsDistinct (keys l)) (sym joined) u)) in
      let stored =
        All-parts (λ r. Stored c equal known r t) (take size whole) (drop size whole)
          (subst (All (λ r. Stored c equal known r t)) (sym joined) s) in
      ap
        (λ o. o >>= (λ x.
          place_batches c equal known fuel size (drop size whole) x.1
          >>= (λ y. some (x.0 + y.0, y.1))))
        (again_all [] (take size whole) t parts.0 (none_met (keys (take size whole))) stored.0)
      ∙ ap (λ o. o >>= (λ y. some (0 + y.0, y.1)))
          (again_batches fuel size (drop size whole) t parts.1 stored.1)

  ended_some :
      (t t' : Dict PropertyKey (Row N F)) (n : ℕ) (o : Option (ℕ × Dict PropertyKey (Row N F)))
      → bulk_ended c equal known t o ≡ (ok n, t')
      → o ≡ some (n, t')
  ended_some t t' n none e = absurd (cc (e))
  ended_some t t' n (some r) e =
      let count : r.0 ≡ n = cc (e) in
      let table : r.1 ≡ t' = cc (e) in ap₂ (λ x y. some (x, y)) count table

  module _ (same_row : (r : Row N F) → equal r r ≡ true) where
    -- what a second run finds of the rows that a first one left
    abbrev pub Repeats :
        ℕ → Option (List (PropertyKey × Row N F)) → (t t' : Dict PropertyKey (Row N F)) → Type 0
    Repeats size rows t t' =
        (l : List (PropertyKey × Row N F)) × (rows ≡ some l)
        × Placed c equal known l t t'
        × (bulk_rows c equal known size rows t' ≡ (ok 0, t'))

    again_rows :
        (size : ℕ) (rows : Option (List (PropertyKey × Row N F))) (n : ℕ)
        (t t' : Dict PropertyKey (Row N F))
        → size ≢ 0
        → ((l : List (PropertyKey × Row N F)) → rows ≡ some l → IsDistinct (keys l))
        → bulk_rows c equal known size rows t ≡ (ok n, t')
        → Repeats size rows t t'
    again_rows size none n t t' s d e = absurd (cc (e))
    again_rows size (some rows) n t t' s d e =
        let u = d rows refl in
        let placed =
          batches-Placed same_row (length rows) size rows t (n, t') (omega arith) s u
            (ended_some t t' n (place_batches c equal known (length rows) size rows t) e) in
        (
          rows,
          refl,
          placed,
          ap (bulk_ended c equal known t')
              (again_batches (length rows) size rows t' u placed.stored),
        )

    pub again_sized :
        (size : ℕ) (b : Bool) (rows : Option (List (PropertyKey × Row N F))) (n : ℕ)
        (t t' : Dict PropertyKey (Row N F))
        → (size == 0) ≡ b
        → ((l : List (PropertyKey × Row N F)) → rows ≡ some l → IsDistinct (keys l))
        → (if b then (err bad_batch_size, t) else bulk_rows c equal known size rows t) ≡ (ok n, t')
        → (l : List (PropertyKey × Row N F)) × (rows ≡ some l)
          × Placed c equal known l t t'
          × ((if b then (err bad_batch_size, t') else bulk_rows c equal known size rows t')
              ≡ (ok 0, t'))
    again_sized size true rows n t t' z d e = absurd (cc (e))
    again_sized size false rows n t t' z d e =
        again_rows size rows n t t' (λ p. ground (arith, z, p)) d e
