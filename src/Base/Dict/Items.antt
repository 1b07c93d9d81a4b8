-- ===== src/Base/Dict/Items.antt =====
-- Dict comprehensions, `{f(k): g(v) for k, v in items}`: the items are put one after the other.
use mathlib.Core.Path.{◌≡◌, refl, sym, ap, ◌∙◌, subst}
use mathlib.Core.Bool.{false}
use mathlib.Core.Option.{Option, some}
use mathlib.Core.List.{List, [], ◌∷◌, ◌++◌, append_assoc, append-nil}
use native.Mathlib.Omega.{arith}
use dbirth.Base.Lists.{All}
use dbirth.Base.Dict.{Hashable, Dict, keys, contains, IsDistinct, put, keys-append, contains-append}
use dbirth.Base.Dict.Keys.{put_absent, get_absent}

module _ {K : Type 0} ⦃h : Hashable K⦄ where
  contains-snoc :
      (k j : K) (ks : List K)
      → contains k ks ≡ false
      → contains k (j ∷ []) ≡ false
      → contains k (ks ++ j ∷ []) ≡ false
  unfolding contains
  contains-snoc k j [] p q = q
  contains-snoc k j (x ∷ ks) p q = ground (arith, p, contains-snoc k j ks)

  contains-swap : (k j : K) → contains k (j ∷ []) ≡ contains j (k ∷ [])
  unfolding contains
  contains-swap k j = ground arith

  first-absent : (k j : K) (ks : List K) → contains k (j ∷ ks) ≡ false → contains k (j ∷ []) ≡ false
  unfolding contains
  first-absent k j ks p = ground (arith, p)

  rest-absent : (k j : K) (ks : List K) → contains k (j ∷ ks) ≡ false → contains k ks ≡ false
  unfolding contains
  rest-absent k j ks p = ground (arith, p)

module _ {K V : Type 0} ⦃h : Hashable K⦄ where
  unfoldable pub put_all : List (K × V) → Dict K V → Dict K V
  unfolding put
  put_all [] d = d
  put_all (e ∷ es) d = put_all es (put e.0 e.1 d)

  unfoldable pub from_items : List (K × V) → Dict K V
  unfolding put_all
  from_items es = put_all es []

  -- no key of the items stands in the dict
  abbrev Apart : List (K × V) → Dict K V → Type 0
  Apart es d = All (λ k. contains k (keys d) ≡ false) (keys es)

  Apart-snoc :
      (k : K) (v : V) (es : List (K × V)) (d : Dict K V)
      → contains k (keys es) ≡ false
      → Apart es d
      → Apart es (d ++ (k, v) ∷ [])
  Apart-snoc k v [] d p a = tt
  Apart-snoc k v (e ∷ es) d p a = (
    subst (λ ks. contains e.0 ks ≡ false) (sym (keys-append d ((k, v) ∷ [])))
        (contains-snoc e.0 k (keys d) a.0 (contains-swap e.0 k ∙ first-absent k e.0 (keys es) p)),
    Apart-snoc k v es d (rest-absent k e.0 (keys es) p) a.1,
  )

  put_all-Apart :
      (es : List (K × V)) (d : Dict K V)
      → IsDistinct (keys es)
      → Apart es d
      → put_all es d ≡ d ++ es
  unfolding put_all
  put_all-Apart [] d u a = sym (append-nil d)
  put_all-Apart (e ∷ es) d u a =
      ap (put_all es) (put_absent e.0 e.1 d (get_absent e.0 d a.0))
      ∙ put_all-Apart es (d ++ (e.0, e.1) ∷ []) u.1 (Apart-snoc e.0 e.1 es d u.0 a.1)
      ∙ append_assoc d (e ∷ []) es

  Apart-empty : (es : List (K × V)) → Apart es []
  unfolding contains
  Apart-empty [] = tt
  Apart-empty (e ∷ es) = (refl, Apart-empty es)

  -- Items whose keys are pairwise distinct are the dict's items.
  pub from_items_distinct : (es : List (K × V)) → IsDistinct (keys es) → from_items es ≡ es
  unfolding from_items
  from_items_distinct es u = put_all-Apart es [] u (Apart-empty es)

module _ {K J V : Type 0} (f : K → J) where
  abbrev pub with_keys : List (K × V) → List (J × V)
  with_keys [] = []
  with_keys (e ∷ es) = (f e.0, e.1) ∷ with_keys es

module _ {K V W : Type 0} (g : V → W) where
  abbrev pub with_values : Dict K V → Dict K W
  with_values [] = []
  with_values (e ∷ es) = (e.0, g e.1) ∷ with_values es

  pub keys-with_values : (d : Dict K V) → keys (with_values d) ≡ keys d
  keys-with_values [] = refl
  keys-with_values (e ∷ d) = ap (λ l. e.0 ∷ l) (keys-with_values d)

-- `back` undoes `f` on a key
abbrev pub Inverts : {K J : Type 0} → (K → J) → (J → Option K) → K → Type 0
Inverts f back k = back (f k) ≡ some k

module _ {K J V : Type 0} ⦃h : Hashable K⦄ ⦃i : Hashable J⦄ (f : K → J) (back : J → Option K) where
  contains-with_keys :
      (k : K) (es : List (K × V))
      → Inverts f back k
      → All (Inverts f back) (keys es)
      → contains k (keys es) ≡ false
      → contains (f k) (keys (with_keys f es)) ≡ false
  unfolding contains
  contains-with_keys k [] p a c = refl
  contains-with_keys k (e ∷ es) p a c = elim (i.same (f e.0) (f k)) [
    | yes q ↦
        let same : some e.0 ≡ some k = sym a.0 ∙ ap back q ∙ p in
        let equal : e.0 ≡ k = cc (same) in absurd (ground (arith, c, equal))
    | no q ↦ ground (arith, q, c, contains-with_keys k es p a.1)
  ]

  -- A function that can be undone on the keys keeps them distinct.
  pub with_keys-IsDistinct :
      (es : List (K × V))
      → All (Inverts f back) (keys es)
      → IsDistinct (keys es)
      → IsDistinct (keys (with_keys f es))
  with_keys-IsDistinct [] a u = tt
  with_keys-IsDistinct (e ∷ es) a u =
      (contains-with_keys e.0 es a.0 a.1 u.0, with_keys-IsDistinct es a.1 u.1)

pub All-everywhere : {K : Type 0} (P : K → Type 0) → ((k : K) → P k) → (ks : List K) → All P ks
All-everywhere P f [] = tt
All-everywhere P f (k ∷ ks) = (f k, All-everywhere P f ks)

module _ {K : Type 0} ⦃h : Hashable K⦄ where
  pub append-IsDistinct :
      (xs ys : List K)
      → IsDistinct xs
      → IsDistinct ys
      → All (λ x. contains x ys ≡ false) xs
      → IsDistinct (xs ++ ys)
  append-IsDistinct [] ys u v a = v
  append-IsDistinct (x ∷ xs) ys u v a =
      (contains-append x xs ys u.0 a.0, append-IsDistinct xs ys u.1 v a.1)

  -- Keys that a list has not, and that are not one more, are not in the list with it.
  pub All-absent-cons :
      (x : K) (met ks : List K)
      → contains x ks ≡ false
      → All (λ k. contains k met ≡ false) ks
      → All (λ k. contains k (x ∷ met) ≡ false) ks
  unfolding contains
  All-absent-cons x met [] p a = tt
  All-absent-cons x met (k ∷ ks) p a =
      (ground (arith, p, a.0), All-absent-cons x met ks (ground (arith, p)) a.1)

  pub contains_parts :
      (x : K) (xs ys : List K)
      → contains x (xs ++ ys) ≡ false
      → (contains x xs ≡ false) × (contains x ys ≡ false)
  unfolding contains
  contains_parts x [] ys h = (refl, h)
  contains_parts x (y ∷ xs) ys h = ground (arith, h, contains_parts x xs ys)

  -- The parts of a list of distinct keys are distinct, and apart.
  pub split-IsDistinct :
      (xs ys : List K)
      → IsDistinct (xs ++ ys)
      → IsDistinct xs × IsDistinct ys × All (λ x. contains x ys ≡ false) xs
  split-IsDistinct [] ys u = (tt, u, tt)
  split-IsDistinct (x ∷ xs) ys u =
      let parts = contains_parts x xs ys u.0 in
      let rest = split-IsDistinct xs ys u.1 in ((parts.0, rest.0), rest.1, (parts.1, rest.2))
