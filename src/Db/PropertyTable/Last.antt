-- ===== src/Db/PropertyTable/Last.antt =====
-- The rows of a bulk upsert, by key: of several payloads of one key the last one counts.
use dbirth.Base.{
  ℕ, ◌≡◌, ◌≢◌, refl, sym, ap, ◌∙◌, arith, Option, none, some, List, [], ◌∷◌, ◌++◌, ite, String,
  false,
}
use dbirth.Base.Dict.{Dict, keys, get, put, get-put, contains, IsDistinct, nat_key, string_key}
use dbirth.Base.Dict.Keys.{get_absent}
use dbirth.Base.Options.{◌>>=◌, bind_some}
use native.Mathlib.Decide.{ℕ_discrete}
use dbirth.Db.Properties.{Conversions}
use dbirth.Db.PropertyTable.Grouping.{tagged, elsewhere, keys-group_rows, group_from-IsGrouped}
use dbirth.Db.PropertyTable.{
  PropertyPayload, PropertyKey, property_key, PropertyKey-discrete, Row, key_of, value_or_empty,
  add_to_group, group_from, row_of, group_rows, all_rows, both_same,
}

abbrev pub or_else : {A : Type 0} → Option A → Option A → Option A
or_else none o = o
or_else (some a) o = some a

or_else-ite :
    {A X : Type 0} (d : Dec X) (a : Option A) (p : A) (o : Option A)
    → or_else a (ite d (some p) o) ≡ or_else (or_else a (ite d (some p) none)) o
or_else-ite (yes e) none p o = refl
or_else-ite (no n) none p o = refl
or_else-ite d (some a) p o = refl

or_else-none : {A : Type 0} (o : Option A) → or_else o none ≡ o
or_else-none none = refl
or_else-none (some a) = refl

get-append :
    {V : Type 0} (k : PropertyKey) (d e : Dict PropertyKey V)
    → get k (d ++ e) ≡ or_else (get k d) (get k e)
unfolding get
get-append k [] e = refl
get-append k (x ∷ d) e = ground (arith, get-append k d e)

module _ {V : Type 0} where
  -- The last of the payloads that have the key.
  abbrev pub last_of : PropertyKey → List (PropertyPayload V) → Option (PropertyPayload V)
  last_of k [] = none
  last_of k (p ∷ ps) =
      or_else (last_of k ps) (ite (PropertyKey-discrete (key_of p) k) (some p) none)

  abbrev grouped_at :
      PropertyKey → Dict ℕ (Dict String (PropertyPayload V)) → Option (PropertyPayload V)
  grouped_at k g = get k.key (value_or_empty (get k.metric_id g))

  grouped_at-add :
      (p : PropertyPayload V) (k : PropertyKey) (g : Dict ℕ (Dict String (PropertyPayload V)))
      → grouped_at k (add_to_group p g)
        ≡ ite (PropertyKey-discrete (key_of p) k) (some p) (grouped_at k g)
  unfolding add_to_group PropertyKey-discrete both_same
  grouped_at-add p k g =
      let old = value_or_empty (get p.metric_id g) in
      ground (arith, get-put p.metric_id k.metric_id (put p.key p old) g, get-put p.key k.key p old)

  grouped_at-group_from :
      (k : PropertyKey) (ps : List (PropertyPayload V))
      (g : Dict ℕ (Dict String (PropertyPayload V)))
      → grouped_at k (group_from ps g) ≡ or_else (last_of k ps) (grouped_at k g)
  unfolding group_from
  grouped_at-group_from k [] g = refl
  grouped_at-group_from k (p ∷ ps) g =
      grouped_at-group_from k ps (add_to_group p g)
      ∙ (ap (or_else (last_of k ps)) (grouped_at-add p k g)
          ∙ or_else-ite (PropertyKey-discrete (key_of p) k) (last_of k ps) p (grouped_at k g))

module _ {V N F : Type 0} (c : Conversions V N F) where
  rows_away :
      (id : ℕ) (k : PropertyKey) (m : Dict String (PropertyPayload V))
      (rows : List (PropertyKey × Row N F))
      → group_rows c id m ≡ some rows
      → k.metric_id ≢ id
      → get k rows ≡ none
  rows_away id k m rows h n =
      get_absent k rows
        (ap (contains k) (keys-group_rows c id m rows h) ∙ elsewhere k.metric_id id k.key m n)

  head_at :
      (id : ℕ) (key : String) (e : String × PropertyPayload V) (m : Dict String (PropertyPayload V))
      (row : Row N F) (rest : List (PropertyKey × Row N F))
      → row_of c e.1 ≡ some row
      → get (tagged id key) rest ≡ (get key m >>= row_of c)
      → get (tagged id key) ((tagged id e.0, row) ∷ rest) ≡ (get key (e ∷ m) >>= row_of c)
  unfolding get PropertyKey-discrete both_same
  head_at id key e m row rest one ih = ground (arith, one, ih)

  rows_at :
      (id : ℕ) (key : String) (m : Dict String (PropertyPayload V))
      (rows : List (PropertyKey × Row N F))
      → group_rows c id m ≡ some rows
      → get (tagged id key) rows ≡ (get key m >>= row_of c)
  unfolding group_rows get
  rows_at id key [] rows h = let made : [] ≡ rows = cc (h) in ap (get (tagged id key)) (sym made)
  rows_at id key (e ∷ m) rows h =
      let (row, one, h₁) =
        bind_some (row_of c e.1) (λ x. group_rows c id m >>= (λ l. some ((tagged id e.0, x) ∷ l)))
          rows h in
      let (rest, more, h₂) =
        bind_some (group_rows c id m) (λ l. some ((tagged id e.0, row) ∷ l)) rows h₁ in
      let made : (tagged id e.0, row) ∷ rest ≡ rows = cc (h₂) in
      sym (ap (get (tagged id key)) made)
      ∙ head_at id key e m row rest one (rows_at id key m rest more)

  joined_at :
      (k : PropertyKey) (e : ℕ × Dict String (PropertyPayload V))
      (g : Dict ℕ (Dict String (PropertyPayload V))) (first rest : List (PropertyKey × Row N F))
      → group_rows c e.0 e.1 ≡ some first
      → contains e.0 (keys g) ≡ false
      → get k rest ≡ (grouped_at k g >>= row_of c)
      → (d : Dec (e.0 ≡ k.metric_id))
      → or_else (get k first) (get k rest)
        ≡ (get k.key (value_or_empty (ite d (some e.1) (get k.metric_id g))) >>= row_of c)
  unfolding get
  joined_at k e g first rest one away ih (yes same) =
      let here : get k first ≡ (get k.key e.1 >>= row_of c) =
        ap (λ i. get (tagged i k.key) first) (sym same) ∙ rows_at e.0 k.key e.1 first one in
      let absent : get k.metric_id g ≡ none =
        get_absent k.metric_id g (ap (λ i. contains i (keys g)) (sym same) ∙ away) in
      let nothing : get k rest ≡ none =
        ih ∙ ap (λ o. get k.key (value_or_empty o) >>= row_of c) absent in
      ap (or_else (get k first)) nothing ∙ (or_else-none (get k first) ∙ here)
  joined_at k e g first rest one away ih (no differs) =
      let elsewhere_first : get k first ≡ none =
        rows_away e.0 k e.1 first one (λ p. differs (sym p)) in
      ap (λ o. or_else o (get k rest)) elsewhere_first ∙ ih

  all_rows_at :
      (k : PropertyKey) (g : Dict ℕ (Dict String (PropertyPayload V)))
      (rows : List (PropertyKey × Row N F))
      → IsDistinct (keys g)
      → all_rows c g ≡ some rows
      → get k rows ≡ (grouped_at k g >>= row_of c)
  unfolding all_rows get
  all_rows_at k [] rows u h = let made : [] ≡ rows = cc (h) in ap (get k) (sym made)
  all_rows_at k (e ∷ g) rows u h =
      let (first, one, h₁) =
        bind_some (group_rows c e.0 e.1) (λ x. all_rows c g >>= (λ l. some (x ++ l))) rows h in
      let (rest, more, h₂) = bind_some (all_rows c g) (λ l. some (first ++ l)) rows h₁ in
      let made : first ++ rest ≡ rows = cc (h₂) in
      let ih = all_rows_at k g rest u.1 more in
      sym (ap (get k) made)
      ∙ (get-append k first rest
          ∙ joined_at k e g first rest one u.0 ih (ℕ_discrete e.0 k.metric_id))

  -- Each row belongs to the last payload of its key.
  pub rows-last_of :
      (payloads : List (PropertyPayload V)) (rows : List (PropertyKey × Row N F)) (k : PropertyKey)
      → all_rows c (group_from payloads []) ≡ some rows
      → get k rows ≡ (last_of k payloads >>= row_of c)
  unfolding get
  rows-last_of payloads rows k h =
      let g = group_from-IsGrouped payloads [] (record { metrics = tt; groups = tt }) in
      all_rows_at k (group_from payloads []) rows g.metrics h
      ∙ ap (λ o. o >>= row_of c)
          (grouped_at-group_from k payloads [] ∙ or_else-none (last_of k payloads))
