-- ===== src/Cdc/Diffing/Snapshots.antt =====
-- What `to_snapshot` and `pop` report of the events of a path.
use mathlib.Core.List.{Perm}
use mathlib.Core.List.Perm
use mathlib.Core.Option
use mathlib.Core.Path.{subst}
use native.Mathlib.Nat.{le_refl, le_trans}
use dbirth.Base.{
  ℕ, ◌≤◌, String, ◌≡◌, ◌≢◌, refl, ap, sym, Option, ◌++◌, none, some, List, [], ◌∷◌, map, arith, All,
  All-map, leb, leb→le, leb→lt, Bool-cases, inl, inr, Option-cases,
}
use dbirth.Base.Dict.{Dict, get, get-remove, string_key}
use dbirth.Base.Dict.Keys.{get-AllEntries, remove-IsDistinct, AllEntries-remove}
use dbirth.Cdc.Diffing.{
  DiffEvent, AggregatedDiff, Snapshot, DiffAccumulator, insert_by_version, sorted, last_of,
  previous_of, strip_versions, snapshot_of, to_snapshot, pop,
}
use dbirth.Cdc.Diffing.Merge.{IsMerged, IsValid}

-- Each number is at most those behind it.
abbrev pub IsAscending : List ℕ → Type 0
IsAscending [] = Unit
IsAscending (v ∷ vs) = All (λ w. v ≤ w) vs × IsAscending vs

module _ {V : Type 0} where
  abbrev versions_of : List (DiffEvent V) → List ℕ
  versions_of = map (λ e. e.version)

  insert_by_version-perm :
      (e : DiffEvent V) (es : List (DiffEvent V)) → Perm (insert_by_version e es) (e ∷ es)
  unfolding insert_by_version
  insert_by_version-perm e [] = Perm.refl (e ∷ [])
  insert_by_version-perm e (x ∷ xs) = elim (Bool-cases (leb e.version x.version)) [
    | inl p ↦ rw p (Perm.refl (e ∷ x ∷ xs))
    | inr p ↦ rw p (Perm.trans (Perm.cons x (insert_by_version-perm e xs)) (Perm.swap e x xs))
  ]

  sorted-perm : (es : List (DiffEvent V)) → Perm (sorted es) es
  unfolding sorted
  sorted-perm [] = Perm.refl []
  sorted-perm (e ∷ es) =
      Perm.trans (unfold insert_by_version in insert_by_version-perm e (sorted es))
        (Perm.cons e (sorted-perm es))

  All-insert :
      (b : ℕ) (e : DiffEvent V) (es : List (DiffEvent V))
      → b ≤ e.version
      → All (λ w. b ≤ w) (versions_of es)
      → All (λ w. b ≤ w) (versions_of (insert_by_version e es))
  unfolding insert_by_version
  All-insert b e [] p a = (p, tt)
  All-insert b e (x ∷ xs) p a = elim (Bool-cases (leb e.version x.version)) [
    | inl q ↦ rw q (p, a)
    | inr q ↦ rw q (a.0, All-insert b e xs p a.1)
  ]

  insert_by_version-IsAscending :
      (e : DiffEvent V) (es : List (DiffEvent V))
      → IsAscending (versions_of es)
      → IsAscending (versions_of (insert_by_version e es))
  unfolding insert_by_version
  insert_by_version-IsAscending e [] a = (tt, tt)
  insert_by_version-IsAscending e (x ∷ xs) a = elim (Bool-cases (leb e.version x.version)) [
    | inl q ↦
        let le = leb→le e.version x.version q in
        rw q (
          (
            le,
            All-map (λ w. x.version ≤ w) (λ w. e.version ≤ w) (λ w h. le_trans le h)
                (versions_of xs) a.0,
          ),
          a,
        )
    | inr q ↦ rw q (
      All-insert x.version e xs (omega (arith, leb→lt e.version x.version q)) a.0,
      insert_by_version-IsAscending e xs a.1,
    )
  ]

  sorted-IsAscending : (es : List (DiffEvent V)) → IsAscending (versions_of (sorted es))
  unfolding sorted
  sorted-IsAscending [] = tt
  sorted-IsAscending (e ∷ es) = insert_by_version-IsAscending e (sorted es) (sorted-IsAscending es)

  last_of-greatest :
      (e : DiffEvent V) (es : List (DiffEvent V))
      → IsAscending (versions_of (e ∷ es))
      → All (λ w. w ≤ (last_of e es).version) (versions_of (e ∷ es))
  last_of-greatest e [] a = (le_refl _, tt)
  last_of-greatest e (x ∷ xs) a =
      let rest = last_of-greatest x xs a.1 in (le_trans a.0.0 rest.0, rest)

  -- The event before the last one gives the previous version, if there is one.
  abbrev pub Precedes : List (DiffEvent V) → Option ℕ → Type 0
  Precedes front none = front ≡ []
  Precedes front (some version) =
      (earlier : List (DiffEvent V)) × (e : DiffEvent V) × (front ≡ earlier ++ e ∷ [])
      × (version ≡ e.version)

  -- Each field of a snapshot in terms of its entry: the events in the order of their versions, what
  -- each of them and the last one say, the version before the last one, and for each key the value
  -- that won.
  pub record Reports (entry : AggregatedDiff V) (s : Snapshot V) : Type 0 where
    pub front : List (DiffEvent V)
    pub latest : DiffEvent V
    pub complete : Perm (front ++ latest ∷ []) entry.events
    pub ascending : IsAscending s.versions
    pub path : s.uns_path ≡ entry.uns_path
    pub versions : s.versions ≡ map (λ e. e.version) (front ++ latest ∷ [])
    pub actors : s.actors ≡ map (λ e. e.actor) (front ++ latest ∷ [])
    pub timestamps : s.timestamps ≡ map (λ e. e.timestamp) (front ++ latest ∷ [])
    pub latest_version : s.latest_version ≡ latest.version
    pub latest_actor : s.latest_actor ≡ latest.actor
    pub previous : Precedes front s.previous_version
    pub newest : All (λ w. w ≤ s.latest_version) s.versions
    pub values :
        (key : String) → get key s.changes ≡ Option.map (λ w. w.1) (get key entry.merged_changes)

  get-strip_versions :
      (key : String) (d : Dict String (ℕ × V))
      → get key (strip_versions d) ≡ Option.map (λ w. w.1) (get key d)
  unfolding get
  get-strip_versions key [] = refl
  get-strip_versions key (e ∷ d) = ground (arith, get-strip_versions key d)

  unfoldable front_of : DiffEvent V → List (DiffEvent V) → List (DiffEvent V)
  front_of e [] = []
  front_of e (x ∷ xs) = e ∷ front_of x xs

  front_of-last_of :
      (e : DiffEvent V) (es : List (DiffEvent V)) → e ∷ es ≡ front_of e es ++ last_of e es ∷ []
  unfolding front_of
  front_of-last_of e [] = refl
  front_of-last_of e (x ∷ xs) = ap (λ l. e ∷ l) (front_of-last_of x xs)

  Precedes-cons :
      (x : DiffEvent V) (front : List (DiffEvent V)) (previous : Option ℕ)
      → front ≢ []
      → Precedes front previous
      → Precedes (x ∷ front) previous
  Precedes-cons x front none n p = absurd (n p)
  Precedes-cons x front (some version) n (earlier, e, split, same) =
      (x ∷ earlier, e, ap (λ l. x ∷ l) split, same)

  previous_of-Precedes :
      (e : DiffEvent V) (es : List (DiffEvent V)) → Precedes (front_of e es) (previous_of e es)
  unfolding front_of
  previous_of-Precedes e [] = refl
  previous_of-Precedes e (x ∷ []) = ([], e, refl, refl)
  previous_of-Precedes e (x ∷ y ∷ ys) =
      Precedes-cons e (front_of x (y ∷ ys)) (previous_of x (y ∷ ys)) (λ c. cc)
        (previous_of-Precedes x (y ∷ ys))

  snapshot_of-Reports :
      (entry : AggregatedDiff V) (es : List (DiffEvent V))
      → es ≢ []
      → Perm es entry.events
      → IsAscending (versions_of es)
      → (s : Snapshot V) × (snapshot_of entry es ≡ some s) × Reports entry s
  snapshot_of-Reports entry [] n p a = absurd (n refl)
  snapshot_of-Reports entry (e ∷ es) n p a = (
    _,
    refl,
    let ends = front_of-last_of e es in
        record {
          front = front_of e es;
          latest = last_of e es;
          complete = subst (λ l. Perm l entry.events) ends p;
          ascending = a;
          path = refl;
          versions = ap (map (λ x. x.version)) ends;
          actors = ap (map (λ x. x.actor)) ends;
          timestamps = ap (map (λ x. x.timestamp)) ends;
          latest_version = refl;
          latest_actor = refl;
          previous = previous_of-Precedes e es;
          newest = last_of-greatest e es a;
          values = λ key. get-strip_versions key entry.merged_changes;
        },
  )

  perm-ne-nil : {es fs : List (DiffEvent V)} → Perm es fs → fs ≢ [] → es ≢ []
  perm-ne-nil {fs = fs} p n e = n (sym (Perm.nil-eq (subst (λ l. Perm l fs) e p)))

  pub to_snapshot-Reports :
      (entry : AggregatedDiff V)
      → entry.events ≢ []
      → (s : Snapshot V) × (to_snapshot entry ≡ some s) × Reports entry s
  unfolding to_snapshot
  to_snapshot-Reports entry n =
      snapshot_of-Reports entry (sorted entry.events) (perm-ne-nil (sorted-perm entry.events) n)
        (sorted-perm entry.events) (sorted-IsAscending entry.events)

  -- Taking a path out of a valid accumulator keeps it valid.
  pub pop-IsValid :
      (path : String) (acc : DiffAccumulator V) → IsValid acc → IsValid (pop path acc).1
  unfolding pop
  pop-IsValid path acc v = elim (Option-cases (get path acc.entries)) [
    | inl e ↦ rw (e, pop) v
    | inr (entry, e) ↦
        rw (e, pop)
          (record {
            distinct = remove-IsDistinct path acc.entries v.distinct;
            merged = AllEntries-remove IsMerged path acc.entries v.merged;
          })
  ]

  -- In a valid accumulator the path of an entry is popped without a raise, and is gone. The
  -- snapshot has the path of the entry, and the versions, actors and timestamps of all its events in
  -- the order of their versions; its latest version and actor are those of the last of these events,
  -- its previous version is that of the one before, and none if there is only one; and for each key
  -- it has the value that won.
  pub pop_present :
      (path : String) (acc : DiffAccumulator V) (entry : AggregatedDiff V)
      → IsValid acc
      → get path acc.entries ≡ some entry
      → (s : Snapshot V) × ((pop path acc).0 ≡ some (some s))
        × Reports entry s
        × IsMerged path entry
        × (get path (pop path acc).1.entries ≡ none)
  unfolding pop
  pop_present path acc entry v e =
      let m = get-AllEntries IsMerged path entry acc.entries v.merged e in
      let (s, made, reports) = to_snapshot-Reports entry m.filled in
      (s, ground arith, reports, m, ground (arith, get-remove path path acc.entries))
