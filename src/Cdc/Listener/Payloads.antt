-- ===== src/Cdc/Listener/Payloads.antt =====
-- The payloads of a flush: what each says of the entry that is popped for it, and how a list of them is
-- handed to the sink.
use mathlib.Core.Path.{subst}
use dbirth.Base.{
  ℕ, ◌+◌, ◌≡◌, ◌≢◌, inl, inr, refl, sym, ◌∙◌, String, Bool, true, false, Option, none, some, List,
  [], ◌∷◌, arith, ite, Option-cases,
}
use dbirth.Base.Dict.{Dict, get, keys, contains, get-remove, string_key, String-discrete}
use dbirth.Cdc.Diffing.{AggregatedDiff, DiffAccumulator, Snapshot, pop}
use dbirth.Base.Dict.Keys.{AllEntries}
use dbirth.Cdc.Diffing.Snapshots.{Reports}
use dbirth.Cdc.Debounce.{DebounceEntry, Emission}
use dbirth.Cdc.Listener.{Listener, Extra}
use dbirth.Cdc.Listener.Emitting.{Payload, build_payload}
use dbirth.Cdc.Listener.Handling.{IsSome, Covers}

pub get_some : {A : Type 0} (o : Option A) → IsSome o → (a : A) × (o ≡ some a)
get_some none h = absurd h
get_some (some a) h = (a, refl)

abbrev pub count_sent : Bool → ℕ → ℕ
count_sent true n = n + 1
count_sent false n = n

module _ {V : Type 0} where
  -- Popping a path takes its diffs out, and no others.
  pub pop_others :
      (k j : String) (acc : DiffAccumulator V)
      → k ≢ j
      → get j (pop k acc).1.entries ≡ get j acc.entries
  unfolding pop
  pop_others k j acc h = elim (Option-cases (get k acc.entries)) [
    | inl e ↦ rw (e, pop) refl
    | inr (a, e) ↦ rw (e, pop) (get-remove k j acc.entries ∙ skipped k j acc h)
  ]
    where
      skipped :
          (k j : String) (acc : DiffAccumulator V)
          → k ≢ j
          → ite (String-discrete k j) none (get j acc.entries) ≡ get j acc.entries
      skipped k j acc h = ground arith

  pub absent_cons :
      (k j : String) (d : Dict String (DebounceEntry V Extra))
      → ite (String-discrete k j) true (contains j (keys d)) ≡ false
      → (k ≢ j) × (contains j (keys d) ≡ false)
  absent_cons k j d h = (ground (arith, h), ground (arith, h))

  pub Covers-pop :
      (k : String) (d : Dict String (DebounceEntry V Extra)) (acc : DiffAccumulator V)
      → contains k (keys d) ≡ false
      → Covers d acc.entries
      → Covers d (pop k acc).1.entries
  unfolding contains
  Covers-pop k [] acc h c = tt
  Covers-pop k (x ∷ d) acc h c =
      let other : k ≢ x.0 = ground (arith, h) in
      (
        subst IsSome (sym (pop_others k x.0 acc other)) c.0,
        Covers-pop k d acc (ground (arith, h)) c.1,
      )

  -- The keys of the dict have the same diffs in both accumulators.
  abbrev pub Agrees :
      Dict String (DebounceEntry V Extra) → DiffAccumulator V → DiffAccumulator V → Type 0
  Agrees d acc acc' = AllEntries (λ j e. get j acc.entries ≡ get j acc'.entries) d

  pub Agrees-pop :
      (k : String) (d : Dict String (DebounceEntry V Extra)) (acc acc' : DiffAccumulator V)
      → contains k (keys d) ≡ false
      → Agrees d acc acc'
      → Agrees d (pop k acc).1 acc'
  unfolding contains
  Agrees-pop k [] acc acc' h c = tt
  Agrees-pop k (x ∷ d) acc acc' h c =
      let other : k ≢ x.0 = ground (arith, h) in
      (pop_others k x.0 acc other ∙ c.0, Agrees-pop k d acc acc' (ground (arith, h)) c.1)

  pub Agrees-refl :
      (d : Dict String (DebounceEntry V Extra)) (acc : DiffAccumulator V) → Agrees d acc acc
  Agrees-refl [] acc = tt
  Agrees-refl (x ∷ d) acc = (refl, Agrees-refl d acc)

  -- The payload is built of a debounced entry and of a snapshot that reports the diffs which the
  -- accumulator has of its metric.
  pub record IsPayloadOf (format : ℕ → String) (acc : DiffAccumulator V) (entry : Emission V Extra)
      (p : Payload V) : Type 0 where
    pub diffs : AggregatedDiff V
    pub found : get entry.metric acc.entries ≡ some diffs
    pub snapshot : Snapshot V
    pub reports : Reports diffs snapshot
    pub built : p ≡ build_payload format entry snapshot

  -- One payload for each entry, in the same order.
  abbrev pub ArePayloads :
      (ℕ → String) → DiffAccumulator V → List (Emission V Extra) → List (Payload V) → Type 0
  ArePayloads format acc [] [] = Unit
  ArePayloads format acc [] (p ∷ ps) = ⊥
  ArePayloads format acc (entry ∷ entries) [] = ⊥
  ArePayloads format acc (entry ∷ entries) (p ∷ ps) =
      IsPayloadOf format acc entry p × ArePayloads format acc entries ps

  -- The sink is called on each payload in turn: how many it returned on, and its state then.
  abbrev pub hand_all : {T : Type 0} → (Payload V → T → Bool × T) → List (Payload V) → ℕ × T → ℕ × T
  hand_all sink [] s = s
  hand_all sink (p ∷ ps) s = hand_all sink ps (count_sent (sink p s.1).0 s.0, (sink p s.1).1)

  -- How many payloads were emitted so far, and the state of the sink.
  abbrev pub so_far : {T : Type 0} → ℕ × Listener V T → ℕ × T
  so_far s = (s.0, s.1.sink_state)
