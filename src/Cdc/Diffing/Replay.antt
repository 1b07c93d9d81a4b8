-- ===== src/Cdc/Diffing/Replay.antt =====
-- Events are applied once: what `extend` counts, and what a second delivery of the same events does.
use dbirth.Base.{
  ℕ, ◌+◌, String, ◌≡◌, refl, true, false, List, [], ◌∷◌, arith, All, length, if◌then◌else◌,
}
use dbirth.Base.Dict.{contains, add, contains-add, string_key}
use dbirth.Cdc.Diffing.{DiffEvent, DiffAccumulator, apply, count_applied, extend_from, extend}

length-add :
    (k : String) (xs : List String)
    → length (add k xs) ≡ (if contains k xs then length xs else length xs + 1)
unfolding add contains
length-add k [] = ground arith
length-add k (x ∷ xs) = ground (arith, length-add k xs)

module _ {V : Type 0} where
  abbrev pub IsSeen : DiffAccumulator V → DiffEvent V → Type 0
  IsSeen acc e = contains e.event_id acc.seen_event_ids ≡ true

  apply-IsSeen_self : (e : DiffEvent V) (acc : DiffAccumulator V) → IsSeen (apply e acc).1 e
  unfolding apply
  apply-IsSeen_self e acc = ground (arith, contains-add e.event_id e.event_id acc.seen_event_ids)

  apply-IsSeen :
      (e x : DiffEvent V) (acc : DiffAccumulator V) → IsSeen acc x → IsSeen (apply e acc).1 x
  unfolding apply
  apply-IsSeen e x acc h = ground (arith, contains-add e.event_id x.event_id acc.seen_event_ids)

  apply_seen :
      (e : DiffEvent V) (acc : DiffAccumulator V) → IsSeen acc e → apply e acc ≡ (false, acc)
  unfolding apply
  apply_seen e acc h = ground arith

  count-apply :
      (e : DiffEvent V) (acc : DiffAccumulator V)
      → length (apply e acc).1.seen_event_ids
        ≡ count_applied (apply e acc).0 (length acc.seen_event_ids)
  unfolding apply
  count-apply e acc = ground (arith, length-add e.event_id acc.seen_event_ids)

  extend_from-IsSeen :
      (n : ℕ) (es : List (DiffEvent V)) (acc : DiffAccumulator V) (x : DiffEvent V)
      → IsSeen acc x
      → IsSeen (extend_from n es acc).1 x
  unfolding extend_from
  extend_from-IsSeen n [] acc x h = h
  extend_from-IsSeen n (e ∷ es) acc x h =
      extend_from-IsSeen (count_applied (apply e acc).0 n) es (apply e acc).1 x
        (apply-IsSeen e x acc h)

  extend_from-All :
      (n : ℕ) (es : List (DiffEvent V)) (acc : DiffAccumulator V)
      → All (IsSeen (extend_from n es acc).1) es
  unfolding extend_from
  extend_from-All n [] acc = tt
  extend_from-All n (e ∷ es) acc =
      let (r, acc') = apply e acc in
      (
        extend_from-IsSeen (count_applied (apply e acc).0 n) es (apply e acc).1 e
            (apply-IsSeen_self e acc),
        extend_from-All (count_applied (apply e acc).0 n) es (apply e acc).1,
      )

  extend_from_seen :
      (n : ℕ) (es : List (DiffEvent V)) (acc : DiffAccumulator V)
      → All (IsSeen acc) es
      → extend_from n es acc ≡ (n, acc)
  unfolding extend_from
  extend_from_seen n [] acc h = refl
  extend_from_seen n (e ∷ es) acc h = rw (apply_seen e acc h.0) (extend_from_seen n es acc h.1)

  extend_from-count :
      (n : ℕ) (es : List (DiffEvent V)) (acc : DiffAccumulator V)
      → (extend_from n es acc).0 + length acc.seen_event_ids
        ≡ n + length (extend_from n es acc).1.seen_event_ids
  unfolding extend_from
  extend_from-count n [] acc = refl
  extend_from-count n (e ∷ es) acc =
      let ih = extend_from-count (count_applied (apply e acc).0 n) es (apply e acc).1 in
      ground (arith, ih, count-apply e acc)

  -- The number that `extend` returns is that of the event ids that became known by it, and a second
  -- delivery of the same events returns 0 and changes nothing.
  pub extend_once :
      (es : List (DiffEvent V)) (acc : DiffAccumulator V)
      → let (applied, acc') = extend es acc in
        (length acc'.seen_event_ids ≡ applied + length acc.seen_event_ids)
        × (extend es acc' ≡ (0, acc'))
  unfolding extend
  extend_once es acc = (
    omega (arith, extend_from-count 0 es acc),
    extend_from_seen 0 es (extend_from 0 es acc).1 (extend_from-All 0 es acc),
  )
