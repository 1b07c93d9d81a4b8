-- ===== src/Cdc/Debounce/Invariant.antt =====
-- `add`: the buffer stays in step with its sequence and within its cap, and what it drops is oldest.
use mathlib.Core.Path.{subst}
use dbirth.Base.{
  ℕ, suc, ◌+◌, ◌-◌, ◌≤◌, ◌<◌, String, ◌≡◌, ◌⊎◌, inl, inr, refl, ap, sym, ◌∙◌, some, [], ◌∷◌, ◌++◌,
  arith, length, leb, leb→le, leb→lt, Option-cases, Bool-cases,
}
use dbirth.Base.Dict.{Dict, get, put, keys, values, string_key, keys-append}
use dbirth.Base.Dict.Keys.{
  AllEntries-put, get-AllEntries, put-IsDistinct, keys-put_present, put_absent,
}
use dbirth.Cdc.Debounce.{
  DebounceEntry, DebounceBuffer, Update, or_zero, set_gauge, merge, fresh, enforce_cap, merge_into,
  now_of, report_depth, add_update,
}
use dbirth.Cdc.Debounce.Cap.{IsNamed, IsAligned, Drops, drop_values, enforce_fits, enforce_one}

module _ {V X : Type 0} where
  pub record IsValid (b : DebounceBuffer V X) : Type 0 where
    pub aligned : IsAligned b
    pub within : length b.entries ≤ b.max_entries

  length-put-le :
      (key : String) (e : DebounceEntry V X) (d : Dict String (DebounceEntry V X))
      → length (put key e d) ≤ length d + 1
  unfolding put
  length-put-le key e [] = omega arith
  length-put-le key e (x ∷ d) = ground (arith, length-put-le key e d)

  named-merge :
      (u : Update V X) (now : ℕ) (e : DebounceEntry V X) → (merge u now e).metric_key ≡ e.metric_key
  unfolding merge
  named-merge u now e = refl

  merge_into-IsAligned :
      (key : String) (u : Update V X) (now : ℕ) (b : DebounceBuffer V X)
      → IsAligned b
      → let m = merge_into key u now b in
        IsAligned m
        × (length m.entries ≤ length b.entries + 1)
        × (m.max_entries ≡ b.max_entries)
        × (m.metrics ≡ b.metrics)
  unfolding merge_into
  merge_into-IsAligned key u now b a = elim (Option-cases (get key b.entries)) [
    | inl new ↦
        let e = merge u now (fresh key now) in
        rw (new, merge_into)
          (
            record {
              distinct = put-IsDistinct key e b.entries a.distinct;
              in_step =
                  ap (λ s. s ++ key ∷ []) a.in_step
                  ∙ sym (
                      ap keys (put_absent key e b.entries new)
                      ∙ keys-append b.entries ((key, e) ∷ []));
              named =
                  AllEntries-put IsNamed key e b.entries (named-merge u now (fresh key now))
                    a.named;
            },
            length-put-le key e b.entries,
            refl,
            refl,
          )
    | inr (old, found) ↦
        let e = merge u now old in
        rw (found, merge_into)
          (
            record {
              distinct = put-IsDistinct key e b.entries a.distinct;
              in_step = a.in_step ∙ sym (keys-put_present key e old b.entries found);
              named =
                  AllEntries-put IsNamed key e b.entries
                    (named-merge u now old ∙ get-AllEntries IsNamed key old b.entries a.named found)
                    a.named;
            },
            length-put-le key e b.entries,
            refl,
            refl,
          )
  ]

  counters-report :
      (b : DebounceBuffer V X) → (report_depth b).metrics.counters ≡ b.metrics.counters
  unfolding set_gauge
  counters-report b = refl

  -- How `add` ends: the merged entries fit, or exactly one entry goes, which is older than or as
  -- old as every other one, and is counted.
  abbrev pub Keeps : DebounceBuffer V X → DebounceBuffer V X → Type 0
  Keeps m b' =
      (length m.entries ≤ m.max_entries) × (b' ≡ report_depth m)
      ⊎ (m.max_entries < length m.entries) × Drops m b'

  add_fits :
      (m : DebounceBuffer V X)
      → IsAligned m
      → length m.entries ≤ m.max_entries + 1
      → (b' : DebounceBuffer V X) × (enforce_cap (length m.entries) m ≡ some b')
        × IsValid (report_depth b')
        × Keeps m (report_depth b')
  add_fits m a room = elim (Bool-cases (leb (length m.entries) m.max_entries)) [
    | inl fits ↦
        let le = leb→le (length m.entries) m.max_entries fits in
        (
          m,
          enforce_fits (length m.entries) m le,
          record {
            aligned = record { distinct = a.distinct; in_step = a.in_step; named = a.named };
            within = le;
          },
          inl (le, refl),
        )
    | inr over ↦
        let more = leb→lt (length m.entries) m.max_entries over in
        let (b', dropped, drops, a', less) =
          drop_values m (values m.entries) a refl (omega arith) in
        let fuel : length m.entries ≡ suc (length m.entries - 1) = omega arith in
        let within : length b'.entries ≤ b'.max_entries = omega (arith, drops.same_cap, less) in
        (
          b',
          subst (λ f. enforce_cap f m ≡ some b') (sym fuel)
              (enforce_one (length m.entries - 1) m b' more dropped within),
          record {
            aligned = record { distinct = a'.distinct; in_step = a'.in_step; named = a'.named };
            within = within;
          },
          inr (
            more,
            record {
              victim = drops.victim;
              found = drops.found;
              oldest = drops.oldest;
              rest = drops.rest;
              counted = ap (λ c. or_zero (get "dropped" c)) (counters-report b') ∙ drops.counted;
              same_cap = drops.same_cap;
            },
          ),
        )
  ]

  -- On a valid buffer `add` never raises and its loop ends: the buffer is valid after it, and the
  -- diff is merged into the entry of its key, at the price of one oldest entry if there is no room.
  pub add_update-IsValid :
      (key : String) (u : Update V X) (clock : ℕ) (b : DebounceBuffer V X)
      → IsValid b
      → (b' : DebounceBuffer V X) × (add_update key u clock b ≡ some b')
        × IsValid b'
        × Keeps (merge_into key u (now_of u.timestamp clock) b) b'
  unfolding add_update
  add_update-IsValid key u clock b v =
      let m = merge_into key u (now_of u.timestamp clock) b in
      let (a, room, cap, _) = merge_into-IsAligned key u (now_of u.timestamp clock) b v.aligned in
      let (b', done, valid, keeps) = add_fits m a (omega (arith, room, cap, v.within)) in
      (report_depth b', ground (arith, done), valid, keeps)
