-- ===== src/Birth/Aliases/Resolution.antt =====
-- The names that births register, and where they are found.
use dbirth.Base.{
  ℕ, String, Bool, true, ◌||◌, ◌&&◌, not, ◌≡◌, ◌≢◌, refl, ap, ◌∙◌, arith, Option, none, some, List,
  [], ◌∷◌, ◌==◌, if◌then◌else◌,
}
use dbirth.Base.Dict.{Dict, get, put, get-put, nat_key}
use dbirth.Base.Strings.{is_empty}
use dbirth.Birth.AliasCache.{AliasKey, alias_key}
use dbirth.Birth.Aliases.{
  AliasInfo, AliasMap, Rebirths, Subscriber, value_or, made_when_absent, ensure_map, info_of,
  ingest_metrics, ingest_birth, known_in, known, node_key, found_or_request, resolve_name,
}
use dbirth.Birth.Payload.{Metric}

module _ {F : Type 0} where
  abbrev pub or_else : Option (AliasInfo F) → Option (AliasInfo F) → Option (AliasInfo F)
  or_else none b = b
  or_else (some a) b = some a

  -- The last metric of a birth that has a name and the alias says what the alias stands for.
  unfoldable pub registered : ℕ → List (Metric F) → Option (AliasInfo F)
  registered a [] = none
  registered a (m ∷ ms) =
      or_else (registered a ms)
        (if not (is_empty m.name) && m.alias == a then some (info_of m) else none)

  abbrev skipped : Bool → Metric F → AliasMap F → AliasMap F
  skipped b m alias_map = if b then alias_map else put m.alias (info_of m) alias_map

  get-skipped :
      (a : ℕ) (m : Metric F) (alias_map : AliasMap F)
      → a ≢ 0
      → get a (skipped (m.alias == 0 || is_empty m.name) m alias_map)
        ≡ or_else
            (if not (is_empty m.name) && m.alias == a then some (info_of m) else none)
            (get a alias_map)
  get-skipped a m alias_map h = ground (arith, h, get-put m.alias a (info_of m) alias_map)

  or_else_assoc : (a b c : Option (AliasInfo F)) → or_else a (or_else b c) ≡ or_else (or_else a b) c
  or_else_assoc none b c = refl
  or_else_assoc (some a) b c = refl

  get-ingest_metrics :
      (a : ℕ) (ms : List (Metric F)) (alias_map : AliasMap F)
      → a ≢ 0
      → get a (ingest_metrics ms alias_map) ≡ or_else (registered a ms) (get a alias_map)
  unfolding ingest_metrics registered
  get-ingest_metrics a [] alias_map h = refl
  get-ingest_metrics a (m ∷ ms) alias_map h =
      get-ingest_metrics a ms (skipped (m.alias == 0 || is_empty m.name) m alias_map) h
      ∙ ap (or_else (registered a ms)) (get-skipped a m alias_map h)
      ∙ or_else_assoc (registered a ms)
          (if not (is_empty m.name) && m.alias == a then some (info_of m) else none)
          (get a alias_map)

  put_self :
      (key : AliasKey) (m : AliasMap F) (maps : Dict AliasKey (AliasMap F))
      → get key (put key m maps) ≡ some m
  put_self key m maps = get-put key key m maps ∙ ground arith

  put_other :
      (key other : AliasKey) (m : AliasMap F) (maps : Dict AliasKey (AliasMap F))
      → key ≢ other
      → get other (put key m maps) ≡ get other maps
  put_other key other m maps n = get-put key other m maps ∙ ground (arith, n)

  get-ensure_map :
      (key : AliasKey) (maps : Dict AliasKey (AliasMap F)) (old : Option (AliasMap F))
      → get key maps ≡ old
      → get key (ensure_map key maps) ≡ some (value_or [] old)
  unfolding ensure_map
  get-ensure_map key maps none e =
      ap (λ o. get key (made_when_absent o key maps)) e ∙ put_self key [] maps
  get-ensure_map key maps (some m) e = ap (λ o. get key (made_when_absent o key maps)) e ∙ e

  known_from :
      (a : ℕ) (ms : List (Metric F)) (old : Option (AliasMap F))
      → a ≢ 0
      → get a (ingest_metrics ms (value_or [] old)) ≡ or_else (registered a ms) (known_in a old)
  unfolding get
  known_from a ms none h = get-ingest_metrics a ms [] h
  known_from a ms (some m) h = get-ingest_metrics a ms m h

  -- A birth puts its aliases over those that its key had.
  pub known-ingest_birth :
      (key : AliasKey) (ms : List (Metric F)) (s : Subscriber F) (a : ℕ)
      → a ≢ 0
      → known key a (ingest_birth key ms s) ≡ or_else (registered a ms) (known key a s)
  unfolding known ingest_birth
  known-ingest_birth key ms s a h =
      let maps = ensure_map key s.alias_maps in
      let kept = get-ensure_map key s.alias_maps (get key s.alias_maps) refl in
      ap (known_in a) (put_self key (ingest_metrics ms (value_or [] (get key maps))) maps)
      ∙ ap (λ m. get a (ingest_metrics ms (value_or [] m))) kept
      ∙ known_from a ms (get key s.alias_maps) h

  get-ensure_map_other :
      (key other : AliasKey) (maps : Dict AliasKey (AliasMap F)) (old : Option (AliasMap F))
      → get key maps ≡ old
      → key ≢ other
      → get other (ensure_map key maps) ≡ get other maps
  unfolding ensure_map
  get-ensure_map_other key other maps none e n =
      ap (λ o. get other (made_when_absent o key maps)) e ∙ put_other key other [] maps n
  get-ensure_map_other key other maps (some m) e n =
      ap (λ o. get other (made_when_absent o key maps)) e

  -- A birth leaves the aliases of every other key.
  pub known-ingest_birth_other :
      (key other : AliasKey) (ms : List (Metric F)) (s : Subscriber F) (a : ℕ)
      → key ≢ other
      → known other a (ingest_birth key ms s) ≡ known other a s
  unfolding known ingest_birth
  known-ingest_birth_other key other ms s a n =
      let maps = ensure_map key s.alias_maps in
      ap (known_in a) (
        put_other key other (ingest_metrics ms (value_or [] (get key maps))) maps n
        ∙ get-ensure_map_other key other s.alias_maps (get key s.alias_maps) refl n)

  resolve_alias :
      (settings : Rebirths) (key : AliasKey) (m : Metric F) (now : ℕ) (s : Subscriber F)
      → is_empty m.name ≡ true
      → m.alias ≢ 0
      → resolve_name settings key m now s
        ≡ found_or_request settings key m.alias now
            (known key m.alias s)
            (known (node_key key) m.alias s)
            s
  unfolding resolve_name
  resolve_alias settings key m now s e h = ground (arith, e, h)

-- After a birth a metric of its key that has only an alias gets the name of the last metric of the
-- birth that has that alias, and no rebirth is requested for it.
pub resolve_name-ingest_birth :
    {F : Type 0} (settings : Rebirths) (key : AliasKey) (ms : List (Metric F)) (s : Subscriber F)
    (m : Metric F) (now : ℕ) (info : AliasInfo F)
    → is_empty m.name ≡ true
    → m.alias ≢ 0
    → registered m.alias ms ≡ some info
    → resolve_name settings key m now (ingest_birth key ms s) ≡ (info.name, ingest_birth key ms s)
resolve_name-ingest_birth settings key ms s m now info e h r =
    let after = ingest_birth key ms s in
    let at : known key m.alias after ≡ some info =
      known-ingest_birth key ms s m.alias h ∙ ap (λ o. or_else o (known key m.alias s)) r in
    resolve_alias settings key m now after e h
    ∙ ap
        (λ o.
          found_or_request settings key m.alias now o (known (node_key key) m.alias after) after)
        at

-- After a birth of an edge node a metric of one of its devices that has only an alias, which the
-- device has not registered, gets the name that the node's birth gives the alias.
pub resolve_name_at_node :
    {F : Type 0} (settings : Rebirths) (key : AliasKey) (device : String) (ms : List (Metric F))
    (s : Subscriber F) (m : Metric F) (now : ℕ) (info : AliasInfo F)
    → key.device ≡ some device
    → is_empty m.name ≡ true
    → m.alias ≢ 0
    → known key m.alias s ≡ none
    → registered m.alias ms ≡ some info
    → resolve_name settings key m now (ingest_birth (node_key key) ms s)
      ≡ (info.name, ingest_birth (node_key key) ms s)
resolve_name_at_node settings key device ms s m now info d e h absent r =
    let after = ingest_birth (node_key key) ms s in
    let other : node_key key ≢ key =
      λ p. let clash : none ≡ some device = ap (λ k. k.device) p ∙ d in absurd (cc (clash)) in
    let at_device : known key m.alias after ≡ none =
      known-ingest_birth_other (node_key key) key ms s m.alias other ∙ absent in
    let at_node : known (node_key key) m.alias after ≡ some info =
      known-ingest_birth (node_key key) ms s m.alias h
      ∙ ap (λ o. or_else o (known (node_key key) m.alias s)) r in
    resolve_alias settings key m now after e h
    ∙ ap
        (λ o.
          found_or_request settings key m.alias now o (known (node_key key) m.alias after) after)
        at_device
    ∙ ap (λ o. found_or_request settings key m.alias now none o after) at_node
