-- ===== src/Uns/CanaryId/Collisions.antt =====
-- The collisions that the generator counts, over every sequence of calls.
use mathlib.Core.Path.{subst}
use dbirth.Base.{
  ◌≤◌, String, true, false, ◌≡◌, refl, sym, ◌∙◌, ap, arith, Option, none, some, List, [], ◌∷◌, All,
}
use dbirth.Base.Dict.{Dict, get, put, get-put, contains, string_key, String-discrete}
use dbirth.Base.Result.{Result, ok, err}
use dbirth.Base.Strings.{Unicode, strip}
use dbirth.Uns.CanaryId.{
  IdError, CanaryIdGenerator, open_generator, unless_same, record_beside, record_generation,
  generate, generate_from, generate_all, path_segments, tag_of_segments, tag_from, tag_of,
  count_segments,
}

-- What a call leaves known, and that it takes no collision back.
record Grows (a b : CanaryIdGenerator) : Type 0 where
  more : a.collisions_total ≤ b.collisions_total
  kept : (id path : String) → get id a.known_ids ≡ some path → get id b.known_ids ≡ some path

kept-put :
    (id tag path source : String) (d : Dict String String)
    → get tag d ≡ none
    → get id d ≡ some path
    → get id (put tag source d) ≡ some path
kept-put id tag path source d absent h = elim (String-discrete tag id) [
  | yes e ↦
      let clash : none ≡ some path = sym absent ∙ ap (λ k. get k d) e ∙ h in absurd (cc (clash))
  | no n ↦ get-put tag id source d ∙ ground (arith, n, h)
]

same-Grows : {a b : String} (d : Dec (a ≡ b)) (g : CanaryIdGenerator) → Grows g (unless_same d g)
same-Grows (yes _) g = record { more = omega arith; kept = λ id path h. h }
same-Grows (no _) g = record { more = omega arith; kept = λ id path h. h }

same-known :
    {a b : String} (d : Dec (a ≡ b)) (tag : String) (g : CanaryIdGenerator)
    → get tag g.known_ids ≡ some a
    → (unless_same d g).collisions_total ≤ g.collisions_total
    → get tag (unless_same d g).known_ids ≡ some b
same-known (yes s) tag g e h = e ∙ ap some s
same-known (no _) tag g e h = absurd (omega (arith, h))

record_beside-Grows :
    (found : Option String) (tag source : String) (g : CanaryIdGenerator)
    → get tag g.known_ids ≡ found
    → Grows g (record_beside found tag source g)
record_beside-Grows none tag source g e = record {
  more = omega arith;
  kept = λ id path h. kept-put id tag path source g.known_ids e h;
}
record_beside-Grows (some existing) tag source g e = same-Grows (String-discrete existing source) g

-- Where no collision is counted, the path is the one that the tag is known for.
record_beside-known :
    (found : Option String) (tag source : String) (g : CanaryIdGenerator)
    → get tag g.known_ids ≡ found
    → (record_beside found tag source g).collisions_total ≤ g.collisions_total
    → get tag (record_beside found tag source g).known_ids ≡ some source
record_beside-known none tag source g e h = get-put tag tag source g.known_ids ∙ ground arith
record_beside-known (some existing) tag source g e h =
    same-known (String-discrete existing source) tag g e h

module _ (u : Unicode) (crc32 : String → String) where
  generate_from-Grows :
      (r : Result IdError (List String)) (trimmed : String) (g : CanaryIdGenerator)
      → Grows g (generate_from u crc32 r trimmed false g).1
  unfolding record_generation
  generate_from-Grows (err e) trimmed g = record { more = omega arith; kept = λ id path h. h }
  generate_from-Grows (ok ws) trimmed g =
      let r =
        record_beside-Grows (get (tag_of_segments u ws) g.known_ids) (tag_of_segments u ws) trimmed
          (count_segments u ws g) refl in
      record { more = r.more; kept = r.kept }

  generate_from-known :
      (r : Result IdError (List String)) (trimmed tag : String) (g : CanaryIdGenerator)
      → tag_from u r ≡ ok tag
      → (generate_from u crc32 r trimmed false g).1.collisions_total ≤ g.collisions_total
      → get tag (generate_from u crc32 r trimmed false g).1.known_ids ≡ some trimmed
  unfolding record_generation
  generate_from-known (err e) trimmed tag g t h = absurd (cc (t))
  generate_from-known (ok ws) trimmed tag g t h =
      let same : tag_of_segments u ws ≡ tag = cc (t) in
      ap (λ k. get k (generate_from u crc32 (ok ws) trimmed false g).1.known_ids) (sym same)
      ∙ record_beside-known (get (tag_of_segments u ws) g.known_ids) (tag_of_segments u ws) trimmed
          (count_segments u ws g) refl h

  generate_all-Grows :
      (ps : List String) (g : CanaryIdGenerator) → Grows g (generate_all u crc32 ps g)
  unfolding generate_all generate
  generate_all-Grows [] g = record { more = omega arith; kept = λ id path h. h }
  generate_all-Grows (p ∷ ps) g =
      let one = generate_from-Grows (path_segments p) (strip p) g in
      let rest = generate_all-Grows ps (generate u crc32 p false g).1 in
      record {
        more = omega (arith, one.more, rest.more);
        kept = λ id path h. rest.kept id path (one.kept id path h);
      }

  abbrev Known : CanaryIdGenerator → String → Type 0
  Known g p = (tag : String) → tag_of u p ≡ ok tag → get tag g.known_ids ≡ some (strip p)

  generate_all-Known :
      (ps : List String) (g : CanaryIdGenerator)
      → (generate_all u crc32 ps g).collisions_total ≤ g.collisions_total
      → All (Known (generate_all u crc32 ps g)) ps
  unfolding generate_all generate tag_of
  generate_all-Known [] g h = tt
  generate_all-Known (p ∷ ps) g h =
      let next = (generate u crc32 p false g).1 in
      let one = generate_from-Grows (path_segments p) (strip p) g in
      let rest = generate_all-Grows ps next in
      (
        λ tag t.
            rest.kept tag (strip p) (
              generate_from-known (path_segments p) (strip p) tag g t
                (omega (arith, h, rest.more))),
        generate_all-Known ps next (omega (arith, h, one.more)),
      )

All-contains :
    (P : String → Type 0) (x : String) (xs : List String) → All P xs → contains x xs ≡ true → P x
unfolding contains
All-contains P x [] h c = absurd (cc (c))
All-contains P x (y ∷ ys) h c = elim (String-discrete y x) [
  | yes e ↦ subst P e h.0
  | no n ↦ All-contains P x ys h.1 (ground (arith, c, n))
]

-- When no collision was counted over a sequence of calls, two of the paths have the same tag only if
-- they are the same but for blanks around them.
pub generate_all_distinct :
    (u : Unicode) (crc32 : String → String) (ps : List String) (p q tag : String)
    → (generate_all u crc32 ps open_generator).collisions_total ≡ 0
    → contains p ps ≡ true
    → contains q ps ≡ true
    → tag_of u p ≡ ok tag
    → tag_of u q ≡ ok tag
    → strip p ≡ strip q
generate_all_distinct u crc32 ps p q tag none_counted hp hq tp tq =
    let g = generate_all u crc32 ps open_generator in
    let known = generate_all-Known u crc32 ps open_generator (omega (arith, none_counted)) in
    let kp = All-contains (Known u crc32 g) p ps known hp tag tp in
    let kq = All-contains (Known u crc32 g) q ps known hq tag tq in
    let same : some (strip p) ≡ some (strip q) = sym kp ∙ kq in cc (same)
