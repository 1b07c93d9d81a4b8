-- ===== src/Cdc/Diffing/Drain.antt =====
-- `drain` against `snapshot`: the same snapshots, in the order in which the paths came.
use dbirth.Base.{
  String, ◌≡◌, refl, ap, sym, ◌∙◌, false, Option, some, List, [], ◌∷◌, ◌++◌, arith, append_assoc,
  append-nil,
}
use dbirth.Base.Dict.{Dict, get, remove, keys, contains, IsDistinct, string_key}
use dbirth.Base.Dict.Keys.{AllEntries, remove_absent}
use dbirth.Cdc.Diffing.{
  AggregatedDiff, Snapshot, DiffAccumulator, to_snapshot, pop, collect, drain_from, drain,
  snapshots, snapshot,
}
use dbirth.Cdc.Diffing.Merge.{IsMerged, IsValid}
use dbirth.Cdc.Diffing.Snapshots.{to_snapshot-Reports}

module _ {V : Type 0} where
  -- The first path of the accumulator is popped off the front.
  pop_first :
      (path : String) (entry : AggregatedDiff V) (d : Dict String (AggregatedDiff V))
      (seen : List String) (s : Snapshot V)
      → contains path (keys d) ≡ false
      → to_snapshot entry ≡ some s
      → pop path (record { entries = (path, entry) ∷ d; seen_event_ids = seen })
        ≡ (some (some s), record { entries = d; seen_event_ids = seen })
  unfolding pop get remove
  pop_first path entry d seen s u made = ground (arith, remove_absent path d u)

  drain_from-cons :
      (path : String) (paths : List String) (out : List (Snapshot V)) (acc acc' : DiffAccumulator V)
      (o : Option (Snapshot V))
      → pop path acc ≡ (some o, acc')
      → drain_from (path ∷ paths) out acc ≡ drain_from paths (collect o out) acc'
  unfolding drain_from
  drain_from-cons path paths out acc acc' o h = ground arith

  -- The loop takes the entries one by one, from the front.
  drain_all :
      (d : Dict String (AggregatedDiff V)) (seen : List String) (out : List (Snapshot V))
      → IsDistinct (keys d)
      → AllEntries IsMerged d
      → (l : List (Snapshot V)) × (snapshots d ≡ some l)
        × (drain_from (keys d) out (record { entries = d; seen_event_ids = seen })
            ≡ (some (out ++ l), record { entries = []; seen_event_ids = seen }))
  unfolding drain_from snapshots
  drain_all [] seen out u m = (
    [],
    refl,
    ap (λ l. (some l, record { entries = []; seen_event_ids = seen })) (sym (append-nil out)),
  )
  drain_all ((path, entry) ∷ d) seen out u m =
      let (s, made, _) = to_snapshot-Reports entry m.0.filled in
      let (l, all, rest) = drain_all d seen (out ++ s ∷ []) u.1 m.1 in
      (
        s ∷ l,
        rw (made, all, snapshots),
        drain_from-cons path (keys d) out _ _ (some s) (pop_first path entry d seen s u.0 made)
            ∙ (rest
                ∙ ap (λ q. (some q, record { entries = []; seen_event_ids = seen }))
                    (append_assoc out (s ∷ []) l)),
      )

  -- A drain of a valid accumulator does not raise. It returns the snapshot of every path, in order,
  -- and leaves no entry; the event ids stay known.
  pub drain-eq-snapshot :
      (acc : DiffAccumulator V)
      → IsValid acc
      → drain acc ≡ (snapshot acc, record acc { entries = [] })
  unfolding drain snapshot
  drain-eq-snapshot acc v =
      let (l, all, drained) = drain_all acc.entries acc.seen_event_ids [] v.distinct v.merged in
      drained ∙ ap (λ o. (o, record acc { entries = [] })) (sym all)
