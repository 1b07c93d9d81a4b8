-- ===== src/Birth/Runtime/Diffs.antt =====
-- The diffs of the listener on their way to the queue of the Canary client.
use mathlib.Core.Path.{subst}
use dbirth.Base.{
  ℕ, ◌+◌, ◌≤◌, ◌≡◌, refl, ◌∙◌, arith, Option, none, some, List, [], ◌∷◌, leb, leb→lt, length,
  length-append, Bool-cases, inl, inr,
}
use dbirth.Birth.Runtime.{enqueue_parsed, handle_diff, handle_diffs}
use dbirth.Canary.Client.{CanaryClient, enqueue}

module _ {D P : Type 0} (from_mapping : P → Option D) where
  abbrev one_if_none : Option D → ℕ
  one_if_none none = 1
  one_if_none (some d) = 0

  -- how many payloads are not a diff
  abbrev pub malformed : List P → ℕ
  malformed [] = 0
  malformed (p ∷ ps) = one_if_none (from_mapping p) + malformed ps

-- what so many payloads, some of them no diffs, make of the client
pub record Handled {D : Type 0} (payloads bad : ℕ) (c c' : CanaryClient D) : Type 0 where
  pub each :
      length c'.queue + c'.metrics.queue_dropped_total + bad
      ≡ length c.queue + c.metrics.queue_dropped_total + payloads
  pub capacity : c'.queue_capacity ≡ c.queue_capacity
  pub within : length c.queue ≤ c.queue_capacity → length c'.queue ≤ c.queue_capacity

module _ {D : Type 0} where
  enqueue-Handled : (d : D) (c : CanaryClient D) → Handled 1 0 c (enqueue d c).1
  unfolding enqueue
  enqueue-Handled d c = elim (Bool-cases (leb c.queue_capacity (length c.queue))) [
    | inl full ↦ rw (full) (record { each = omega arith; capacity = refl; within = λ h. h })
    | inr free ↦ rw (free) (record {
      each = omega (arith, length-append c.queue (d ∷ []));
      capacity = refl;
      within = λ h.
          omega
            (arith, length-append c.queue (d ∷ []), leb→lt c.queue_capacity (length c.queue) free);
    })
  ]

module _ {D P : Type 0} (from_mapping : P → Option D) where
  parsed-Handled :
      (o : Option D) (c : CanaryClient D)
      → Handled 1 (one_if_none from_mapping o) c (enqueue_parsed from_mapping o c)
  parsed-Handled none c = record { each = omega arith; capacity = refl; within = λ h. h }
  parsed-Handled (some d) c = enqueue-Handled d c

  followed :
      (m n b d : ℕ) (c c' c'' : CanaryClient D)
      → Handled m b c c'
      → Handled n d c' c''
      → Handled (m + n) (b + d) c c''
  followed m n b d c c' c'' h k = record {
    each = omega (arith, h.each, k.each);
    capacity = k.capacity ∙ h.capacity;
    within = λ w.
        let x = h.within w in omega (arith, h.capacity, k.within (omega (arith, x, h.capacity)));
  }

  -- Of the payloads that the listener hands over, each is put into the queue of the Canary client,
  -- counted as dropped, or no diff at all: none is lost without a count, and the queue stays within
  -- its capacity.
  pub handle_diffs-Handled :
      (ps : List P) (c : CanaryClient D)
      → (c' : CanaryClient D) × (handle_diffs from_mapping ps (some c) ≡ some c')
        × Handled (length ps) (malformed from_mapping ps) c c'
  unfolding handle_diffs handle_diff
  handle_diffs-Handled [] c =
      (c, refl, record { each = omega arith; capacity = refl; within = λ h. h })
  handle_diffs-Handled (p ∷ ps) c =
      let next = enqueue_parsed from_mapping (from_mapping p) c in
      let rest = handle_diffs-Handled ps next in
      (
        rest.0,
        rest.1,
        subst (λ n. Handled n (malformed from_mapping (p ∷ ps)) c rest.0) (omega arith)
            (followed 1 (length ps) (one_if_none from_mapping (from_mapping p))
              (malformed from_mapping ps) c next rest.0 (parsed-Handled (from_mapping p) c) rest.2),
      )
