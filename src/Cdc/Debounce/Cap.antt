-- ===== src/Cdc/Debounce/Cap.antt =====
-- `_enforce_cap`: one round drops an oldest entry and counts it, and one round is enough.
use mathlib.Core.Path.{subst}
use native.Mathlib.Nat.{le_refl, le_trans}
use dbirth.Base.{
  ℕ, zero, suc, ◌+◌, ◌≤◌, ◌<◌, String, ◌≡◌, ◌⊎◌, inl, inr, refl, ap, sym, Bool, true, false, some,
  List, [], ◌∷◌, arith, All, length, ltb, ltb→lt, ltb→le, Bool-cases, if◌then◌else◌,
}
use dbirth.Base.Dict.{
  Dict, get, get-put, remove, keys, values, IsDistinct, string_key, length-values,
}
use dbirth.Base.Dict.Keys.{
  AllEntries, AllEntries-remove, get_absent, remove-IsDistinct, length-remove,
}
use dbirth.Cdc.Debounce.{
  DebounceMetrics, DebounceEntry, DebounceBuffer, or_zero, inc, remove_first, oldest_from,
  drop_oldest, enforce_cap,
}
use dbirth.Cdc.Debounce.Sequence.{remove_first-keys}

abbrev Member : {A : Type 0} → A → List A → Type 0
Member x [] = ⊥
Member x (y ∷ ys) = (x ≡ y) ⊎ Member x ys

pub counter-inc :
    (name : String) (n : ℕ) (m : DebounceMetrics)
    → or_zero (get name (inc name n m).counters) ≡ or_zero (get name m.counters) + n
unfolding inc
counter-inc name n m =
    ground (arith, get-put name name (or_zero (get name m.counters) + n) m.counters)

module _ {V X : Type 0} where
  abbrev pub IsNamed : String → DebounceEntry V X → Type 0
  IsNamed key e = e.metric_key ≡ key

  abbrev pub NotOlder : DebounceEntry V X → String → DebounceEntry V X → Type 0
  NotOlder e key x = e.last_update ≤ x.last_update

  -- The sequence lists the keys of the dict, in order; each entry knows its key.
  pub record IsAligned (b : DebounceBuffer V X) : Type 0 where
    pub distinct : IsDistinct (keys b.entries)
    pub in_step : b.sequence ≡ keys b.entries
    pub named : AllEntries IsNamed b.entries

  oldest_from-cons :
      (e x : DebounceEntry V X) (xs : List (DebounceEntry V X)) (newer : Bool)
      → ltb x.last_update e.last_update ≡ newer
      → oldest_from e (x ∷ xs) ≡ oldest_from (if newer then x else e) xs
  unfolding oldest_from
  oldest_from-cons e x xs newer h = ap (λ b. oldest_from (if b then x else e) xs) h

  oldest_from-Member :
      (e : DebounceEntry V X) (es : List (DebounceEntry V X)) → Member (oldest_from e es) (e ∷ es)
  oldest_from-Member e [] = inl (unfold oldest_from in refl)
  oldest_from-Member e (x ∷ xs) = elim (Bool-cases (ltb x.last_update e.last_update)) [
    | inl t ↦
        subst (λ o. Member o (e ∷ x ∷ xs)) (sym (oldest_from-cons e x xs true t))
          (inr (oldest_from-Member x xs))
    | inr t ↦
        subst (λ o. Member o (e ∷ x ∷ xs)) (sym (oldest_from-cons e x xs false t))
          (elim (oldest_from-Member e xs) [ inl p ↦ inl p | inr m ↦ inr (inr m) ])
  ]

  abbrev Least : DebounceEntry V X → List (DebounceEntry V X) → Type 0
  Least o = All (λ x. o.last_update ≤ x.last_update)

  oldest_from-Least :
      (e : DebounceEntry V X) (es : List (DebounceEntry V X)) → Least (oldest_from e es) (e ∷ es)
  oldest_from-Least e [] = (unfold oldest_from in le_refl _, tt)
  oldest_from-Least e (x ∷ xs) = elim (Bool-cases (ltb x.last_update e.last_update)) [
    | inl t ↦
        let ih = oldest_from-Least x xs in
        subst (λ o. Least o (e ∷ x ∷ xs)) (sym (oldest_from-cons e x xs true t))
          (omega (arith, ltb→lt x.last_update e.last_update t, ih.0), ih)
    | inr t ↦
        let ih = oldest_from-Least e xs in
        subst (λ o. Least o (e ∷ x ∷ xs)) (sym (oldest_from-cons e x xs false t))
          (ih.0, (le_trans ih.0 (ltb→le x.last_update e.last_update t), ih.1))
  ]

  -- An entry that the dict holds is found under its own key.
  get_own :
      (x : DebounceEntry V X) (d : Dict String (DebounceEntry V X))
      → IsDistinct (keys d)
      → AllEntries IsNamed d
      → Member x (values d)
      → get x.metric_key d ≡ some x
  unfolding get
  get_own x [] u n m = absurd m
  get_own x ((k, e) ∷ d) u n (inl p) = ground arith
  get_own x ((k, e) ∷ d) u n (inr m) = ground (arith, get_own x d u.1 n.1 m, get_absent k d u.0)

  AllEntries-values :
      (e : DebounceEntry V X) (d : Dict String (DebounceEntry V X))
      → All (λ x. e.last_update ≤ x.last_update) (values d)
      → AllEntries (NotOlder e) d
  AllEntries-values e [] a = tt
  AllEntries-values e (x ∷ d) a = (a.0, AllEntries-values e d a.1)

  -- What one round of the loop of `_enforce_cap` does.
  pub record Drops (b b' : DebounceBuffer V X) : Type 0 where
    pub victim : DebounceEntry V X
    pub found : get victim.metric_key b.entries ≡ some victim
    pub oldest : AllEntries (NotOlder victim) b.entries
    pub rest : b'.entries ≡ remove victim.metric_key b.entries
    pub counted :
        or_zero (get "dropped" b'.metrics.counters) ≡ or_zero (get "dropped" b.metrics.counters) + 1
    pub same_cap : b'.max_entries ≡ b.max_entries

  drop_found :
      (b : DebounceBuffer V X) (e : DebounceEntry V X) (es : List (DebounceEntry V X))
      (rest : List String)
      → values b.entries ≡ e ∷ es
      → get (oldest_from e es).metric_key b.entries ≡ some (oldest_from e es)
      → remove_first (oldest_from e es).metric_key b.sequence ≡ some rest
      → drop_oldest b
        ≡ some (record b {
          entries = remove (oldest_from e es).metric_key b.entries;
          sequence = rest;
          metrics = inc "dropped" 1 b.metrics;
        })
  unfolding drop_oldest
  drop_found b e es rest p q r = ground arith

  pub drop_values :
      (b : DebounceBuffer V X) (es : List (DebounceEntry V X))
      → IsAligned b
      → values b.entries ≡ es
      → 0 < length b.entries
      → (b' : DebounceBuffer V X) × (drop_oldest b ≡ some b')
        × Drops b b'
        × IsAligned b'
        × (length b'.entries + 1 ≡ length b.entries)
  drop_values b [] a e pos = absurd (omega (arith, length-values b.entries, ap length e))
  drop_values b (x ∷ xs) a e pos =
      let o = oldest_from x xs in
      let found =
        get_own o b.entries a.distinct a.named
          (subst (Member o) (sym e) (oldest_from-Member x xs)) in
      let removed =
        subst (λ l. remove_first o.metric_key l ≡ some (keys (remove o.metric_key b.entries)))
          (sym a.in_step) (remove_first-keys o.metric_key o b.entries a.distinct found) in
      (
        _,
        drop_found b x xs _ e found removed,
        record {
          victim = o;
          found = found;
          oldest = AllEntries-values o b.entries (subst (Least o) (sym e) (oldest_from-Least x xs));
          rest = refl;
          counted = counter-inc "dropped" 1 b.metrics;
          same_cap = refl;
        },
        record {
          distinct = remove-IsDistinct o.metric_key b.entries a.distinct;
          in_step = refl;
          named = AllEntries-remove IsNamed o.metric_key b.entries a.named;
        },
        length-remove o.metric_key o b.entries a.distinct found,
      )

  pub enforce_fits :
      (fuel : ℕ) (b : DebounceBuffer V X)
      → length b.entries ≤ b.max_entries
      → enforce_cap fuel b ≡ some b
  unfolding enforce_cap
  enforce_fits zero b h = ground arith
  enforce_fits (suc fuel) b h = ground arith

  pub enforce_one :
      (fuel : ℕ) (b b' : DebounceBuffer V X)
      → b.max_entries < length b.entries
      → drop_oldest b ≡ some b'
      → length b'.entries ≤ b'.max_entries
      → enforce_cap (suc fuel) b ≡ some b'
  unfolding enforce_cap
  enforce_one fuel b b' h d fits = ground (arith, enforce_fits fuel b' fits)
