-- ===== src/Cdc/Listener/Handling.antt =====
-- `_handle_change` keeps the accumulator and the buffer in step.
use mathlib.Core.Path.{subst}
use text.Mathlib.Text.{◌==◌ as str_eq}
use dbirth.Base.{
  ℕ, ◌≡◌, ◌⊎◌, inl, inr, refl, sym, String, Bool, true, false, Option, none, some, List, [], ◌∷◌,
  arith, ap, ◌∙◌, Bool-cases, Option-cases,
}
use dbirth.Base.Dict.{Dict, get, put, keys, contains, IsDistinct, get-put, string_key}
use dbirth.Base.Dict.Keys.{AllEntries, AllEntries-put, AllEntries-remove}
use dbirth.Cdc.Diffing.{DiffEvent, DiffAccumulator, AggregatedDiff, apply}
use dbirth.Cdc.Diffing.Merge.{apply-IsValid}
use dbirth.Cdc.Diffing.Merge
use dbirth.Cdc.Debounce.{DebounceBuffer, DebounceEntry, Update, merge_into, now_of}
use dbirth.Cdc.Debounce.Invariant.{add_update-IsValid, Keeps}
use dbirth.Cdc.Debounce.Invariant
use dbirth.Cdc.Listener.{
  Listener, Extra, after_apply, take_event, handle_change, find_metric_id, or_old,
  extract_metric_id, event_of, update_of,
}
use dbirth.Cdc.Listener.Metadata.{
  ChangeColumn, ChangeRecord, MetricIdentity, MetricVersionSnapshot, Provider,
}

abbrev pub IsSome : {A : Type 0} → Option A → Type 0
IsSome none = ⊥
IsSome (some a) = Unit

Option-shape :
    {A : Type 0} (o : Option (Option A))
    → (o ≡ none) ⊎ (o ≡ some none) ⊎ ((a : A) × (o ≡ some (some a)))
Option-shape none = inl refl
Option-shape (some none) = inr (inl refl)
Option-shape (some (some a)) = inr (inr (a, refl))

module _ {C : Type 0} (int_of : C → Option ℕ) where
  -- One of the columns has a value that `int` raises on.
  abbrev pub HasBadInt : List (ChangeColumn C) → Type 0
  HasBadInt [] = ⊥
  HasBadInt (column ∷ columns) = (int_of column.value ≡ none) ⊎ HasBadInt columns

  find_metric_id-HasBadInt :
      (columns : List (ChangeColumn C)) → find_metric_id int_of columns ≡ none → HasBadInt columns
  unfolding find_metric_id
  find_metric_id-HasBadInt [] e = absurd (cc (e))
  find_metric_id-HasBadInt (column ∷ columns) e =
      elim (Bool-cases (str_eq column.name "metric_id")) [
        | inr other ↦ inr (find_metric_id-HasBadInt columns (ground (arith, e, other)))
        | inl named ↦ elim (Option-cases (int_of column.value)) [
          | inl raises ↦ inl raises
          | inr (n, returns) ↦ absurd (ground (arith, e, named, returns))
        ]
      ]

  extract_metric_id-HasBadInt :
      (change : ChangeRecord C)
      → extract_metric_id int_of change ≡ none
      → HasBadInt change.columns ⊎ HasBadInt change.old_columns
  unfolding extract_metric_id
  extract_metric_id-HasBadInt change e =
      elim (Option-shape (find_metric_id int_of change.columns)) [
        | inl raises ↦ inl (find_metric_id-HasBadInt change.columns raises)
        | inr (inl missing) ↦ inr (
            find_metric_id-HasBadInt change.old_columns
              (ap (λ o. or_old int_of o change.old_columns) (sym missing) ∙ e))
        | inr (inr (n, found)) ↦
            let clash : some (some n) ≡ none =
              ap (λ o. or_old int_of o change.old_columns) (sym found) ∙ e in
            absurd (cc (clash))
      ]

module _ {V : Type 0} where
  abbrev pub HasDiff : Dict String (AggregatedDiff V) → String → DebounceEntry V Extra → Type 0
  HasDiff entries key e = IsSome (get key entries)

  -- Every metric that waits in the buffer has its diffs in the accumulator.
  abbrev pub Covers : Dict String (DebounceEntry V Extra) → Dict String (AggregatedDiff V) → Type 0
  Covers waiting entries = AllEntries (HasDiff entries) waiting

  put-IsSome :
      (k j : String) (a : AggregatedDiff V) (d : Dict String (AggregatedDiff V))
      → IsSome (get j d)
      → IsSome (get j (put k a d))
  put-IsSome k j a d h = ground (arith, get-put k j a d)

  Covers-put :
      (k : String) (a : AggregatedDiff V) (w : Dict String (DebounceEntry V Extra))
      (d : Dict String (AggregatedDiff V))
      → Covers w d
      → Covers w (put k a d)
  Covers-put k a [] d c = tt
  Covers-put k a (x ∷ w) d c = (put-IsSome k x.0 a d c.0, Covers-put k a w d c.1)

  put_same :
      (k : String) (a : AggregatedDiff V) (d : Dict String (AggregatedDiff V))
      → IsSome (get k (put k a d))
  put_same k a d = ground (arith, get-put k k a d)

  Covers-merge_into :
      (key : String) (u : Update V Extra) (now : ℕ) (b : DebounceBuffer V Extra)
      (d : Dict String (AggregatedDiff V))
      → IsSome (get key d)
      → Covers b.entries d
      → Covers (merge_into key u now b).entries d
  unfolding merge_into
  Covers-merge_into key u now b d h c = elim (Option-cases (get key b.entries)) [
    | inl new ↦ rw (new, merge_into) (AllEntries-put (HasDiff d) key _ b.entries h c)
    | inr (e, old) ↦ rw (old, merge_into) (AllEntries-put (HasDiff d) key _ b.entries h c)
  ]

  Covers-Keeps :
      (m b' : DebounceBuffer V Extra) (d : Dict String (AggregatedDiff V))
      → Keeps m b'
      → Covers m.entries d
      → Covers b'.entries d
  Covers-Keeps m b' d (inl (fits, same)) c = subst (λ b. Covers b.entries d) (sym same) c
  Covers-Keeps m b' d (inr (over, drops)) c =
      subst (λ w. Covers w d) (sym drops.rest)
        (AllEntries-remove (HasDiff d) drops.victim.metric_key m.entries c)

  -- The accumulator and the buffer are valid, and what waits in the buffer has its diffs.
  pub record InStep {T : Type 0} (l : Listener V T) : Type 0 where
    pub accumulator : Merge.IsValid l.accumulator
    pub buffer : Invariant.IsValid l.buffer
    pub covers : Covers l.buffer.entries l.accumulator.entries

  apply-Covers :
      (event : DiffEvent V) (acc : DiffAccumulator V) (w : Dict String (DebounceEntry V Extra))
      → Covers w acc.entries
      → Covers w (apply event acc).1.entries
  unfolding apply
  apply-Covers event acc w c = elim (Bool-cases (contains event.event_id acc.seen_event_ids)) [
    | inl seen ↦ rw (seen, apply) c
    | inr new ↦ rw (new, apply) (Covers-put event.uns_path _ w acc.entries c)
  ]

  apply_new :
      (event : DiffEvent V) (acc : DiffAccumulator V)
      → (apply event acc).0 ≡ true
      → IsSome (get event.uns_path (apply event acc).1.entries)
  unfolding apply
  apply_new event acc h = elim (Bool-cases (contains event.event_id acc.seen_event_ids)) [
    | inl seen ↦ absurd (ground (arith, seen, h))
    | inr new ↦ rw (new, apply) (put_same event.uns_path _ acc.entries)
  ]

  -- The diffs that a provider gives are dicts.
  abbrev pub GivesDicts : Provider V → Type 0
  GivesDicts provider =
      (metric : ℕ) (snapshot : MetricVersionSnapshot V)
      → provider.get_version_snapshot metric ≡ some (some snapshot)
      → IsDistinct (keys snapshot.diff)

  -- `int` raises on a column of the change, or the provider raises on its metric: in the lookup of the
  -- identity, or, for a metric that it knows, in that of the version.
  abbrev pub CannotLookUp : {C : Type 0} → (C → Option ℕ) → Provider V → ChangeRecord C → Type 0
  CannotLookUp int_of provider change =
      (HasBadInt int_of change.columns ⊎ HasBadInt int_of change.old_columns)
      ⊎ ((metric : ℕ) × (extract_metric_id int_of change ≡ some (some metric))
          × ((provider.get_identity metric ≡ none)
              ⊎ ((identity : MetricIdentity) × (provider.get_identity metric ≡ some (some identity))
                  × (provider.get_version_snapshot metric ≡ none))))

  module _ {T : Type 0} where
    -- The two are in step after a call that returns; a call that raises has its reason, and has changed
    -- nothing.
    abbrev pub Handled : Type 0 → Listener V T → Bool × Listener V T → Type 0
    Handled reason l (true, l') = InStep l'
    Handled reason l (false, l') = reason × (l' ≡ l) × InStep l'

    pub Handled-InStep :
        (reason : Type 0) (l : Listener V T) (r : Bool × Listener V T)
        → Handled reason l r
        → InStep r.1
    Handled-InStep reason l (true, l') h = h
    Handled-InStep reason l (false, l') h = h.2

    abbrev Returned : Bool × Listener V T → Type 0
    Returned r = (r.0 ≡ true) × InStep r.1

    apply_step :
        (applied : Bool) (now : ℕ) (path : String) (update : ℕ → Update V Extra) (l : Listener V T)
        → (applied ≡ true → IsSome (get path l.accumulator.entries))
        → InStep l
        → Returned (after_apply applied now path update l)
    apply_step false now path update l h s = (refl, s)
    apply_step true now path update l h s =
        let (b', added, valid, keeps) =
          add_update-IsValid path (update now) now l.buffer s.buffer in
        let merged = merge_into path (update now) (now_of (update now).timestamp now) l.buffer in
        let covers : Covers b'.entries l.accumulator.entries =
          Covers-Keeps merged b' l.accumulator.entries keeps (
            Covers-merge_into path (update now) (now_of (update now).timestamp now) l.buffer
              l.accumulator.entries (h refl) s.covers) in
        rw (added) (refl, record { accumulator = s.accumulator; buffer = valid; covers = covers })

    event_step :
        (clock : ℕ → ℕ) (format : ℕ → String) (metric : ℕ) (identity : MetricIdentity)
        (snapshot : MetricVersionSnapshot V) (l : Listener V T)
        → IsDistinct (keys snapshot.diff)
        → InStep l
        → Returned (take_event clock format metric identity snapshot l)
    unfolding take_event
    event_step clock format metric identity snapshot l u s =
        let event = event_of format metric identity snapshot in
        let (applied, accumulator) = apply event l.accumulator in
        apply_step applied (clock l.readings) identity.uns_path
          (λ now. update_of now metric identity snapshot event.event_id)
          (record l { accumulator = accumulator }) (apply_new event l.accumulator)
          (record {
            accumulator = apply-IsValid event l.accumulator u s.accumulator;
            buffer = s.buffer;
            covers = apply-Covers event l.accumulator l.buffer.entries s.covers;
          })

    returned_Handled :
        (reason : Type 0) (l : Listener V T) (r : Bool × Listener V T)
        → Returned r
        → Handled reason l r
    returned_Handled reason l (true, l') (returned, s) = s
    returned_Handled reason l (false, l') (returned, s) = absurd (cc (returned))

    explained :
        {C : Type 0} (int_of : C → Option ℕ) (provider : Provider V) (clock : ℕ → ℕ)
        (format : ℕ → String) (change : ChangeRecord C) (l : Listener V T) (reason : Type 0)
        → (CannotLookUp int_of provider change → reason)
        → GivesDicts provider
        → InStep l
        → Handled reason l (handle_change int_of provider clock format change l)
    unfolding handle_change
    explained int_of provider clock format change l reason because dicts s =
        elim (Option-shape (extract_metric_id int_of change)) [
          | inl e ↦
              rw (e, handle_change)
                (because (inl (extract_metric_id-HasBadInt int_of change e)), refl, s)
          | inr (inl e) ↦ rw (e, handle_change) s
          | inr (inr (metric, e)) ↦ elim (Option-shape (provider.get_identity metric)) [
            | inl f ↦ rw (e, f, handle_change) (because (inr (metric, e, inl f)), refl, s)
            | inr (inl f) ↦ rw (e, f, handle_change) s
            | inr (inr (identity, f)) ↦ elim (Option-shape (provider.get_version_snapshot metric)) [
              | inl g ↦
                  rw (e, f, g, handle_change)
                    (because (inr (metric, e, inr (identity, f, g))), refl, s)
              | inr (inl g) ↦ rw (e, f, g, handle_change) s
              | inr (inr (snapshot, g)) ↦
                  rw (e, f, g, handle_change)
                    (returned_Handled reason l (take_event clock format metric identity snapshot l)
                      (event_step clock format metric identity snapshot l (dicts metric snapshot g)
                        s))
            ]
          ]
        ]

    -- While the accumulator and the buffer are valid and every metric that waits in the buffer has
    -- its diffs in the accumulator, a change raises only where `int` raises on one of its columns or
    -- the provider in a lookup of its metric, and then changes nothing; after any change the same holds again, also where the buffer drops an entry.
    pub handle_change-InStep :
        {C : Type 0} (int_of : C → Option ℕ) (provider : Provider V) (clock : ℕ → ℕ)
        (format : ℕ → String) (change : ChangeRecord C) (l : Listener V T)
        → GivesDicts provider
        → InStep l
        → Handled
            (CannotLookUp int_of provider change)
            l
            (handle_change int_of provider clock format change l)
    handle_change-InStep int_of provider clock format change l dicts s =
        explained int_of provider clock format change l (CannotLookUp int_of provider change)
          (λ x. x) dicts s
