-- ===== src/Base/Dict/Keys.antt =====
-- The keys of a dict under its updates, and predicates on all entries.
use mathlib.Core.Path.{◌≡◌, refl, sym, subst, ap}
use mathlib.Core.Logic.{ite, if_pos, if_neg}
use mathlib.Core.Bool.{true, false}
use mathlib.Core.Option.{none, some}
use mathlib.Core.List.{[], ◌∷◌, ◌++◌}
use Prim.Native.Nat.{◌+◌}
use dbirth.Base.Lists.{length}
use native.Mathlib.Omega.{arith}
use dbirth.Base.Dict.{Hashable, Dict, keys, contains, IsDistinct, get, put, remove}

module _ {K V : Type 0} ⦃h : Hashable K⦄ where
  pub contains-put :
      (k j : K) (v : V) (d : Dict K V)
      → contains j (keys (put k v d)) ≡ ite (h.same k j) true (contains j (keys d))
  unfolding contains put
  contains-put k j v [] = refl
  contains-put k j v (e ∷ d) = ground (arith, contains-put k j v d)

  pub put-IsDistinct :
      (k : K) (v : V) (d : Dict K V) → IsDistinct (keys d) → IsDistinct (keys (put k v d))
  unfolding put contains
  put-IsDistinct k v [] u = (refl, tt)
  put-IsDistinct k v (e ∷ d) u = ground (arith, put-IsDistinct k v d u.1, contains-put k e.0 v d)

  pub contains-remove :
      (k j : K) (d : Dict K V)
      → contains j (keys (remove k d)) ≡ ite (h.same k j) false (contains j (keys d))
  unfolding contains remove
  contains-remove k j [] = ground arith
  contains-remove k j (e ∷ d) = ground (arith, contains-remove k j d)

  pub remove-IsDistinct :
      (k : K) (d : Dict K V) → IsDistinct (keys d) → IsDistinct (keys (remove k d))
  unfolding remove
  remove-IsDistinct k [] u = tt
  remove-IsDistinct k (e ∷ d) u = ground (arith, remove-IsDistinct k d u.1, contains-remove k e.0 d)

  pub remove_absent : (k : K) (d : Dict K V) → contains k (keys d) ≡ false → remove k d ≡ d
  unfolding remove contains
  remove_absent k [] u = refl
  remove_absent k (e ∷ d) u = ground (arith, remove_absent k d)

  pub get_absent : (k : K) (d : Dict K V) → contains k (keys d) ≡ false → get k d ≡ none
  unfolding get contains
  get_absent k [] u = refl
  get_absent k (e ∷ d) u = ground (arith, get_absent k d)

  pub get_present : (k : K) (d : Dict K V) → get k d ≡ none → contains k (keys d) ≡ false
  unfolding get contains
  get_present k [] u = refl
  get_present k (e ∷ d) u = ground (arith, get_present k d)

  module _ (P : K → V → Type 0) where
    -- What holds of every entry.
    abbrev pub AllEntries : Dict K V → Type 0
    AllEntries [] = Unit
    AllEntries (e ∷ d) = P e.0 e.1 × AllEntries d

    pub AllEntries-put :
        (k : K) (v : V) (d : Dict K V) → P k v → AllEntries d → AllEntries (put k v d)
    unfolding put
    AllEntries-put k v [] p a = (p, tt)
    AllEntries-put k v (e ∷ d) p a = elim (h.same e.0 k) [
      | yes q ↦ rw (if_pos _ q) (subst (λ x. P x v) (sym q) p, a.1)
      | no q ↦ rw (if_neg _ q) (a.0, AllEntries-put k v d p a.1)
    ]

    pub AllEntries-remove : (k : K) (d : Dict K V) → AllEntries d → AllEntries (remove k d)
    unfolding remove
    AllEntries-remove k [] a = tt
    AllEntries-remove k (e ∷ d) a = elim (h.same e.0 k) [
      | yes q ↦ rw (if_pos _ q) (AllEntries-remove k d a.1)
      | no q ↦ rw (if_neg _ q) (a.0, AllEntries-remove k d a.1)
    ]

    pub get-AllEntries : (k : K) (v : V) (d : Dict K V) → AllEntries d → get k d ≡ some v → P k v
    unfolding get
    get-AllEntries k v [] a e = absurd (cc)
    get-AllEntries k v (x ∷ d) a e = elim (h.same x.0 k) [
      | yes q ↦ subst (λ y. P y v) q (subst (P x.0) (ground arith) a.0)
      | no q ↦ get-AllEntries k v d a.1 (ground arith)
    ]

  pub keys-put_present :
      (k : K) (v w : V) (d : Dict K V) → get k d ≡ some w → keys (put k v d) ≡ keys d
  unfolding get put
  keys-put_present k v w [] e = absurd (cc)
  keys-put_present k v w (x ∷ d) e = elim (h.same x.0 k) [
    | yes p ↦ rw (if_pos _ p)
    | no p ↦ rw (if_neg _ p) (ap (λ l. x.0 ∷ l) (keys-put_present k v w d (ground arith)))
  ]

  pub put_absent : (k : K) (v : V) (d : Dict K V) → get k d ≡ none → put k v d ≡ d ++ (k, v) ∷ []
  unfolding get put
  put_absent k v [] e = refl
  put_absent k v (x ∷ d) e = elim (h.same x.0 k) [
    | yes p ↦ absurd (ground arith)
    | no p ↦ rw (if_neg _ p) (ap (λ l. x ∷ l) (put_absent k v d (ground arith)))
  ]

  pub length-remove :
      (k : K) (v : V) (d : Dict K V)
      → IsDistinct (keys d)
      → get k d ≡ some v
      → length (remove k d) + 1 ≡ length d
  unfolding get remove
  length-remove k v [] u e = absurd (cc)
  length-remove k v (x ∷ d) u e = elim (h.same x.0 k) [
    | yes p ↦ ground (arith, remove_absent x.0 d u.0)
    | no p ↦ ground (arith, length-remove k v d u.1)
  ]
