-- ===== src/Cdc/Diffing/Merge.antt =====
-- Which change of a key wins in `merged_changes`.
use dbirth.Base.{
  ℕ, ◌≤◌, ◌<◌, ◌≢◌, leb→le, Bool-cases, String, ◌≡◌, refl, Option, none, some, List, [], ◌∷◌, ◌++◌,
  arith, All, All-append, All-map, leb, append_assoc, if◌then◌else◌, ite, Option-cases, inl, inr,
  ◌∙◌, ap, sym,
}
use dbirth.Base.Dict.{Dict, get, get-put, keys, contains, IsDistinct, string_key, String-discrete}
use dbirth.Base.Dict.Keys.{get_absent, put-IsDistinct, AllEntries, AllEntries-put, get-AllEntries}
use mathlib.Core.Path.{subst}
use dbirth.Cdc.Diffing.{
  DiffEvent, AggregatedDiff, DiffAccumulator, apply, entry_for, merge_change, merge_changes, append,
}
use native.Mathlib.Nat.{le_trans}

module _ {V : Type 0} where
  -- What one event does to the winner of a key.
  abbrev pub pick : ℕ → Option V → Option (ℕ × V) → Option (ℕ × V)
  pick version none stored = stored
  pick version (some value) none = some (version, value)
  pick version (some value) (some (current, old)) =
      if leb current version then some (version, value) else some (current, old)

  get-merge_change :
      (version : ℕ) (key k : String) (value : V) (merged : Dict String (ℕ × V))
      → get k (merge_change version key value merged)
        ≡ ite (String-discrete key k) (pick version (some value) (get k merged)) (get k merged)
  unfolding merge_change
  get-merge_change version key k value merged =
      ground (arith, get-put key k (version, value) merged)

  get-merge_changes :
      (version : ℕ) (k : String) (changes : Dict String V) (merged : Dict String (ℕ × V))
      → IsDistinct (keys changes)
      → get k (merge_changes version changes merged) ≡ pick version (get k changes) (get k merged)
  unfolding merge_changes get
  get-merge_changes version k [] merged u = refl
  get-merge_changes version k ((key, value) ∷ changes) merged u =
      let ih = get-merge_changes version k changes (merge_change version key value merged) u.1 in
      let one = get-merge_change version key k value merged in
      let absent = get_absent key changes u.0 in ground (arith, ih, one, absent)

  -- If the event carries the key, then its version is at most, or below, the given one.
  abbrev pub AtMost : String → ℕ → DiffEvent V → Type 0
  AtMost key version e = (v : V) → get key e.changes ≡ some v → e.version ≤ version

  abbrev pub Older : String → ℕ → DiffEvent V → Type 0
  Older key version e = (v : V) → get key e.changes ≡ some v → e.version < version

  abbrev pub Lacks : String → DiffEvent V → Type 0
  Lacks key e = get key e.changes ≡ none

  -- The winner of a key among the events: the newest version that carries the key and, of equal
  -- versions, the last one; none if no event carries it.
  abbrev pub Wins : String → List (DiffEvent V) → Option (ℕ × V) → Type 0
  Wins key events none = All (Lacks key) events
  Wins key events (some (version, value)) =
      (before : List (DiffEvent V)) × (e : DiffEvent V) × (after : List (DiffEvent V)) × (events
        ≡ before ++ e ∷ after)
      × (e.version ≡ version)
      × (get key e.changes ≡ some value)
      × All (AtMost key version) before
      × All (Older key version) after

  Wins-step :
      (key : String) (es : List (DiffEvent V)) (stored : Option (ℕ × V)) (e : DiffEvent V)
      (change : Option V)
      → get key e.changes ≡ change
      → Wins key es stored
      → Wins key (es ++ e ∷ []) (pick e.version change stored)
  Wins-step key es none e none eq w = All-append (Lacks key) es (e ∷ []) w (eq, tt)
  Wins-step key es (some (v, x)) e none eq (before, m, after, split, p, q, b, a) = (
    before,
    m,
    after ++ e ∷ [],
    ap (λ l. l ++ e ∷ []) split ∙ append_assoc before (m ∷ after) (e ∷ []),
    p,
    q,
    b,
    All-append (Older key v) after (e ∷ []) a ((λ y h. absurd (cc)), tt),
  )
  Wins-step key es none e (some y) eq w = (
    es,
    e,
    [],
    refl,
    refl,
    eq,
    All-map (Lacks key) (AtMost key e.version) (λ z h v k. absurd (cc)) es w,
    tt,
  )
  Wins-step key es (some (v, x)) e (some y) eq (before, m, after, split, p, q, b, a) =
      elim (Bool-cases (leb v e.version)) [
        | inl newer ↦ rw newer (es, e, [], refl, refl, eq, earlier (leb→le v e.version newer), tt)
        | inr older ↦ rw older (
          before,
          m,
          after ++ e ∷ [],
          ap (λ l. l ++ e ∷ []) split ∙ append_assoc before (m ∷ after) (e ∷ []),
          p,
          q,
          b,
          All-append (Older key v) after (e ∷ []) a ((λ u h. ground arith), tt),
        )
      ]
    where
      earlier : v ≤ e.version → All (AtMost key e.version) es
      earlier le = subst (All (AtMost key e.version)) (sym split) (
          All-append (AtMost key e.version) before (m ∷ after)
            (All-map (AtMost key v) (AtMost key e.version) (λ z h u k. le_trans (h u k) le) before
              b)
            (
              (λ u k. rw p le),
              All-map (Older key v) (AtMost key e.version) (λ z h u k. omega (arith, h u k, le))
                  after a,
            ))

  -- What an entry of the accumulator knows of the events of its path: they all belong to it, there
  -- is at least one, and each key holds the value of its winner.
  pub record IsMerged (path : String) (entry : AggregatedDiff V) : Type 0 where
    pub named : entry.uns_path ≡ path
    pub filled : entry.events ≢ []
    pub own : All (λ e. e.uns_path ≡ path) entry.events
    pub winners : (key : String) → Wins key entry.events (get key entry.merged_changes)

  snoc-ne-nil : (es : List (DiffEvent V)) (e : DiffEvent V) → es ++ e ∷ [] ≢ []
  snoc-ne-nil [] e h = cc
  snoc-ne-nil (x ∷ es) e h = cc

  append-winners :
      (entry : AggregatedDiff V) (event : DiffEvent V)
      → IsDistinct (keys event.changes)
      → ((key : String) → Wins key entry.events (get key entry.merged_changes))
      → (key : String)
      → Wins key (append entry event).events (get key (append entry event).merged_changes)
  unfolding append
  append-winners entry event u w key =
      subst (Wins key (entry.events ++ event ∷ []))
        (sym (get-merge_changes event.version key event.changes entry.merged_changes u))
        (Wins-step key entry.events (get key entry.merged_changes) event (get key event.changes)
          refl (w key))

  append-IsMerged :
      (path : String) (entry : AggregatedDiff V) (event : DiffEvent V)
      → event.uns_path ≡ path
      → IsDistinct (keys event.changes)
      → entry.uns_path ≡ path
      → All (λ e. e.uns_path ≡ path) entry.events
      → ((key : String) → Wins key entry.events (get key entry.merged_changes))
      → IsMerged path (append entry event)
  unfolding append
  append-IsMerged path entry event p u n o w = record {
    named = n;
    filled = snoc-ne-nil entry.events event;
    own = All-append (λ (e : DiffEvent V). e.uns_path ≡ path) entry.events (event ∷ []) o (p, tt);
    winners = append-winners entry event u w;
  }

  -- The accumulator: one entry for each path, each with its winners.
  pub record IsValid (acc : DiffAccumulator V) : Type 0 where
    pub distinct : IsDistinct (keys acc.entries)
    pub merged : AllEntries IsMerged acc.entries

  entry_for-IsMerged :
      (event : DiffEvent V) (entries : Dict String (AggregatedDiff V))
      → IsDistinct (keys event.changes)
      → AllEntries IsMerged entries
      → IsMerged event.uns_path (append (entry_for event.uns_path entries) event)
  entry_for-IsMerged event entries u a = elim (Option-cases (get event.uns_path entries)) [
    | inl new ↦
        rw (new, entry_for)
          (append-IsMerged event.uns_path _ event refl u refl tt (λ key. unfold get in tt))
    | inr (entry, old) ↦
        let m = get-AllEntries IsMerged event.uns_path entry entries a old in
        rw (old, entry_for)
          (append-IsMerged event.uns_path entry event refl u m.named m.own m.winners)
  ]

  -- Whatever event comes, seen or new, every key of every path still holds the value of its winner.
  pub apply-IsValid :
      (event : DiffEvent V) (acc : DiffAccumulator V)
      → IsDistinct (keys event.changes)
      → IsValid acc
      → IsValid (apply event acc).1
  unfolding apply
  apply-IsValid event acc u v = elim (Bool-cases (contains event.event_id acc.seen_event_ids)) [
    | inl seen ↦ rw seen v
    | inr new ↦ rw new (record {
      distinct = put-IsDistinct event.uns_path _ acc.entries v.distinct;
      merged =
          AllEntries-put IsMerged event.uns_path _ acc.entries
            (entry_for-IsMerged event acc.entries u v.merged) v.merged;
    })
  ]
