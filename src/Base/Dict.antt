-- ===== src/Base/Dict.antt =====
-- Python's dict: its keys are pairwise distinct, and it is iterated in the order of insertion.
-- `d[k] = v` on a present key keeps the key's place; `pop` takes the entry out.
pub mod Keys
pub mod Items
use mathlib.Core.Path.{◌≡◌, refl, ap}
use mathlib.Core.Logic.{ite, ◌↔◌}
use mathlib.Core.Bool.{Bool, true, false}
use mathlib.Core.Option.{Option, none, some}
use mathlib.Core.List.{List, [], ◌∷◌, ◌++◌}
use Prim.Native.Nat.{ℕ}
use Prim.Native.String.{String}
use native.Mathlib.Decide.{ℕ_discrete}
use native.Mathlib.Omega.{arith}
use text.Mathlib.Text.{◌==◌ as str_eq}
use text.Mathlib.TextEquality.{eq_iff}
use dbirth.Base.Lists.{length}

-- What a dict and a set need of their keys: equality that can be decided.
pub record Hashable {ℓ} (K : Type ℓ) : Type ℓ where
  pub same : Discrete K

dec_of : (a b : String) (t : Bool) → ((t ≡ true) ↔ (a ≡ b)) → Dec (a ≡ b)
dec_of a b true h = yes (h.0 refl)
dec_of a b false h = no (λ p. ground (arith, h.1 p))

unfoldable pub String-discrete : Discrete String
unfolding dec_of
String-discrete a b = dec_of a b (str_eq a b) (eq_iff a b)

instance abbrev pub string_key : Hashable String
string_key = record { same = String-discrete }

instance abbrev pub nat_key : Hashable ℕ
nat_key = record { same = ℕ_discrete }

abbrev pub Dict {ℓ} : Type ℓ → Type ℓ → Type ℓ
Dict K V = List (K × V)

module _ {ℓ} {K V : Type ℓ} where
  abbrev pub keys : Dict K V → List K
  keys [] = []
  keys (e ∷ d) = e.0 ∷ keys d

  abbrev pub values : Dict K V → List V
  values [] = []
  values (e ∷ d) = e.1 ∷ values d

  pub length-keys : (d : Dict K V) → length (keys d) ≡ length d
  length-keys [] = refl
  length-keys (e ∷ d) = omega (arith, length-keys d)

  pub length-values : (d : Dict K V) → length (values d) ≡ length d
  length-values [] = refl
  length-values (e ∷ d) = omega (arith, length-values d)

  pub keys-append : (d e : Dict K V) → keys (d ++ e) ≡ keys d ++ keys e
  keys-append [] e = refl
  keys-append (x ∷ d) e = ap (λ l. x.0 ∷ l) (keys-append d e)

module _ {K : Type 0} ⦃h : Hashable K⦄ where
  -- `k in xs` on a list or a set
  unfoldable pub contains : K → List K → Bool
  contains k [] = false
  contains k (x ∷ xs) = ite (h.same x k) true (contains k xs)

  -- Every key stands once.
  abbrev pub IsDistinct : List K → Type 0
  IsDistinct [] = Unit
  IsDistinct (x ∷ xs) = (contains x xs ≡ false) × IsDistinct xs

  -- `s.add(x)`
  unfoldable pub add : K → List K → List K
  unfolding contains
  add k [] = k ∷ []
  add k (x ∷ xs) = ite (h.same x k) (x ∷ xs) (x ∷ add k xs)

  pub contains-add :
      (k j : K) (xs : List K) → contains j (add k xs) ≡ ite (h.same k j) true (contains j xs)
  unfolding contains add
  contains-add k j [] = refl
  contains-add k j (x ∷ xs) = ground (arith, contains-add k j xs)

  pub add-IsDistinct : (k : K) (xs : List K) → IsDistinct xs → IsDistinct (add k xs)
  unfolding add contains
  add-IsDistinct k [] d = (refl, tt)
  add-IsDistinct k (x ∷ xs) d = ground (arith, add-IsDistinct k xs d.1, contains-add k x xs)

  pub contains-append :
      (k : K) (xs ys : List K)
      → contains k xs ≡ false
      → contains k ys ≡ false
      → contains k (xs ++ ys) ≡ false
  unfolding contains
  contains-append k [] ys p q = q
  contains-append k (x ∷ xs) ys p q = ground (arith, contains-append k xs ys)

module _ {ℓ} {K V : Type ℓ} ⦃h : Hashable K⦄ where
  -- `d.get(k)`
  unfoldable pub get : K → Dict K V → Option V
  get k [] = none
  get k (e ∷ d) = ite (h.same e.0 k) (some e.1) (get k d)

  -- `d[k] = v`
  unfoldable pub put : K → V → Dict K V → Dict K V
  put k v [] = (k, v) ∷ []
  put k v (e ∷ d) = ite (h.same e.0 k) ((e.0, v) ∷ d) (e ∷ put k v d)

  -- `d.pop(k, None)`
  unfoldable pub remove : K → Dict K V → Dict K V
  remove k [] = []
  remove k (e ∷ d) = let rest = remove k d in ite (h.same e.0 k) rest (e ∷ rest)

  pub get-put :
      (k j : K) (v : V) (d : Dict K V) → get j (put k v d) ≡ ite (h.same k j) (some v) (get j d)
  unfolding get put
  get-put k j v [] = refl
  get-put k j v (e ∷ d) = ground (arith, get-put k j v d)

  pub get-remove : (k j : K) (d : Dict K V) → get j (remove k d) ≡ ite (h.same k j) none (get j d)
  unfolding get remove
  get-remove k j [] = ground arith
  get-remove k j (e ∷ d) = ground (arith, get-remove k j d)
