-- ===== src/Db/PropertyTable/Grouping.antt =====
-- The rows of a bulk upsert have pairwise distinct keys, since the payloads were grouped.
use mathlib.Core.Path.{subst, ap₂}
use dbirth.Base.{
  ℕ, ◌≡◌, ◌≢◌, refl, sym, ap, ◌∙◌, arith, String, false, Option, none, some, List, [], ◌∷◌, ◌++◌,
  All,
}
use dbirth.Base.Dict.{
  Dict, keys, get, put, contains, contains-append, IsDistinct, keys-append, nat_key, string_key,
}
use dbirth.Base.Dict.Items.{
  with_keys, Inverts, with_keys-IsDistinct, All-everywhere, append-IsDistinct,
}
use dbirth.Base.Dict.Keys.{put-IsDistinct, AllEntries, AllEntries-put, get-AllEntries}
use dbirth.Base.Options.{◌>>=◌}
use dbirth.Db.Properties.{Conversions}
use dbirth.Db.PropertyTable.{
  PropertyPayload, PropertyKey, property_key, PropertyKey-discrete, Row, value_or_empty,
  add_to_group, group_from, row_of, group_rows, all_rows,
}

abbrev pub tagged : ℕ → String → PropertyKey
tagged id k = record { metric_id = id; key = k }

abbrev untagged : PropertyKey → Option String
untagged k = some k.key

not_head :
    (id j : ℕ) (js : List ℕ) → contains id (j ∷ js) ≡ false → (id ≢ j) × (contains id js ≡ false)
unfolding contains
not_head id j js h = (λ p. ground (arith, h, p), ground (arith, h))

module _ {V : Type 0} where
  abbrev pub DistinctGroup : ℕ → Dict String (PropertyPayload V) → Type 0
  DistinctGroup id m = IsDistinct (keys m)

  pub record IsGrouped (grouped : Dict ℕ (Dict String (PropertyPayload V))) : Type 0 where
    pub metrics : IsDistinct (keys grouped)
    pub groups : AllEntries DistinctGroup grouped

  group_IsDistinct :
      (id : ℕ) (grouped : Dict ℕ (Dict String (PropertyPayload V)))
      (old : Option (Dict String (PropertyPayload V)))
      → AllEntries DistinctGroup grouped
      → get id grouped ≡ old
      → IsDistinct (keys (value_or_empty old))
  group_IsDistinct id grouped none h e = tt
  group_IsDistinct id grouped (some m) h e = get-AllEntries DistinctGroup id m grouped h e

  add_to_group-IsGrouped :
      (p : PropertyPayload V) (grouped : Dict ℕ (Dict String (PropertyPayload V)))
      → IsGrouped grouped
      → IsGrouped (add_to_group p grouped)
  unfolding add_to_group
  add_to_group-IsGrouped p grouped h =
      let old = value_or_empty (get p.metric_id grouped) in
      record {
        metrics = put-IsDistinct p.metric_id (put p.key p old) grouped h.metrics;
        groups =
            AllEntries-put DistinctGroup p.metric_id (put p.key p old) grouped
              (put-IsDistinct p.key p old
                (group_IsDistinct p.metric_id grouped (get p.metric_id grouped) h.groups refl))
              h.groups;
      }

  pub group_from-IsGrouped :
      (ps : List (PropertyPayload V)) (grouped : Dict ℕ (Dict String (PropertyPayload V)))
      → IsGrouped grouped
      → IsGrouped (group_from ps grouped)
  unfolding group_from
  group_from-IsGrouped [] grouped h = h
  group_from-IsGrouped (p ∷ ps) grouped h =
      group_from-IsGrouped ps (add_to_group p grouped) (add_to_group-IsGrouped p grouped h)

  abbrev flat : Dict ℕ (Dict String (PropertyPayload V)) → List PropertyKey
  flat [] = []
  flat (e ∷ es) = keys (with_keys (tagged e.0) e.1) ++ flat es

  pub elsewhere :
      (id j : ℕ) (k : String) (es : Dict String (PropertyPayload V))
      → id ≢ j
      → contains (tagged id k) (keys (with_keys (tagged j) es)) ≡ false
  unfolding contains
  elsewhere id j k [] n = refl
  elsewhere id j k (e ∷ es) n = elim (PropertyKey-discrete (tagged j e.0) (tagged id k)) [
    | yes p ↦ absurd (n (sym (ap (λ x. x.metric_id) p)))
    | no q ↦ ground (arith, q, elsewhere id j k es n)
  ]

  not_in_flat :
      (id : ℕ) (k : String) (es : Dict ℕ (Dict String (PropertyPayload V)))
      → contains id (keys es) ≡ false
      → contains (tagged id k) (flat es) ≡ false
  unfolding contains
  not_in_flat id k [] h = refl
  not_in_flat id k (e ∷ es) h =
      let away = not_head id e.0 (keys es) h in
      contains-append (tagged id k) (keys (with_keys (tagged e.0) e.1)) (flat es)
        (elsewhere id e.0 k e.1 away.0) (not_in_flat id k es away.1)

  all_away :
      (id : ℕ) (m : Dict String (PropertyPayload V)) (es : Dict ℕ (Dict String (PropertyPayload V)))
      → contains id (keys es) ≡ false
      → All (λ k. contains k (flat es) ≡ false) (keys (with_keys (tagged id) m))
  all_away id [] es h = tt
  all_away id (e ∷ m) es h = (not_in_flat id e.0 es h, all_away id m es h)

  flat-IsDistinct :
      (es : Dict ℕ (Dict String (PropertyPayload V)))
      → IsDistinct (keys es)
      → AllEntries DistinctGroup es
      → IsDistinct (flat es)
  flat-IsDistinct [] u a = tt
  flat-IsDistinct (e ∷ es) u a =
      append-IsDistinct (keys (with_keys (tagged e.0) e.1)) (flat es)
        (with_keys-IsDistinct (tagged e.0) untagged e.1
          (All-everywhere (Inverts (tagged e.0) untagged) (λ k. refl) (keys e.1)) a.0)
        (flat-IsDistinct es u.1 a.1) (all_away e.0 e.1 es u.0)

module _ {V N F : Type 0} (c : Conversions V N F) where
  pub keys-group_rows :
      (id : ℕ) (es : Dict String (PropertyPayload V)) (rows : List (PropertyKey × Row N F))
      → group_rows c id es ≡ some rows
      → keys rows ≡ keys (with_keys (tagged id) es)
  unfolding group_rows
  keys-group_rows id [] rows h = let e : [] ≡ rows = cc (h) in sym (ap keys e)
  keys-group_rows id (e ∷ es) rows h =
      with_row (row_of c e.1) (group_rows c id es) (keys-group_rows id es) refl h
    where
      with_row :
          (row : Option (Row N F)) (rest : Option (List (PropertyKey × Row N F)))
          → ((l : List (PropertyKey × Row N F))
              → group_rows c id es ≡ some l
              → keys l ≡ keys (with_keys (tagged id) es))
          → group_rows c id es ≡ rest
          → (row >>= (λ x. rest >>= (λ l. some ((tagged id e.0, x) ∷ l)))) ≡ some rows
          → keys rows ≡ tagged id e.0 ∷ keys (with_keys (tagged id) es)
      with_row none rest ih g p = absurd (cc (p))
      with_row (some x) none ih g p = absurd (cc (p))
      with_row (some x) (some l) ih g p =
          let made : (tagged id e.0, x) ∷ l ≡ rows = cc (p) in
          sym (ap keys made) ∙ ap (λ ks. tagged id e.0 ∷ ks) (ih l g)

  keys-all_rows :
      (es : Dict ℕ (Dict String (PropertyPayload V))) (rows : List (PropertyKey × Row N F))
      → all_rows c es ≡ some rows
      → keys rows ≡ flat es
  unfolding all_rows
  keys-all_rows [] rows h = let e : [] ≡ rows = cc (h) in sym (ap keys e)
  keys-all_rows (e ∷ es) rows h =
      joined (group_rows c e.0 e.1) (all_rows c es) (keys-all_rows es) refl refl h
    where
      joined :
          (first rest : Option (List (PropertyKey × Row N F)))
          → ((l : List (PropertyKey × Row N F)) → all_rows c es ≡ some l → keys l ≡ flat es)
          → group_rows c e.0 e.1 ≡ first
          → all_rows c es ≡ rest
          → (first >>= (λ x. rest >>= (λ l. some (x ++ l)))) ≡ some rows
          → keys rows ≡ keys (with_keys (tagged e.0) e.1) ++ flat es
      joined none rest ih f g p = absurd (cc (p))
      joined (some x) none ih f g p = absurd (cc (p))
      joined (some x) (some l) ih f g p =
          let made : x ++ l ≡ rows = cc (p) in
          sym (ap keys made) ∙ keys-append x l ∙ ap₂ ◌++◌ (keys-group_rows e.0 e.1 x f) (ih l g)

  pub grouped-IsDistinct :
      (ps : List (PropertyPayload V)) (rows : List (PropertyKey × Row N F))
      → all_rows c (group_from ps []) ≡ some rows
      → IsDistinct (keys rows)
  grouped-IsDistinct ps rows h =
      let g = group_from-IsGrouped ps [] (record { metrics = tt; groups = tt }) in
      subst IsDistinct (sym (keys-all_rows (group_from ps []) rows h))
        (flat-IsDistinct (group_from ps []) g.metrics g.groups)
