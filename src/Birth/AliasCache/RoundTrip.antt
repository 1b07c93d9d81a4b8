-- ===== src/Birth/AliasCache/RoundTrip.antt =====
-- A registry that is serialised comes back as it was.
use Prim.Native.Char.{code}
use mathlib.Core.Path.{subst}
use dbirth.Base.{
  ℕ, zero, suc, ◌+◌, ◌*◌, ◌-◌, ◌/◌, ◌%◌, ◌≤◌, ◌<◌, String, Bool, true, false, ◌≡◌, refl, sym, ap,
  ◌∙◌, arith, some, List, [], ◌∷◌, ◌==◌, ltb, ltb→lt, ltb→le, ◌≢◌, if◌then◌else◌, All, All-map,
  Bool-cases, inl, inr,
}
use dbirth.Base.Dict.{Dict, keys, IsDistinct, string_key, nat_key}
use dbirth.Base.Dict.Items.{
  with_keys, with_values, keys-with_values, from_items_distinct, All-everywhere, Inverts,
  with_keys-IsDistinct,
}
use dbirth.Base.Strings.{is_empty, ◌<>◌}
use dbirth.Base.Strings.Words.{Free, append_not_empty}
use dbirth.Base.Text.{digit}
use dbirth.Birth.AliasCache.{
  AliasKey, alias_key, str_from, str, int_from, int, cut, device_token, composite_key, device_of,
  parse_key, serialize_entries, serialize_alias_maps, int_items, parsed_items,
  deserialize_alias_maps,
}

-- the digits of a text, read after a number
choose :
    (P : String → Type 0) (b : Bool) (s t : String)
    → ((b ≡ true) → P s)
    → ((b ≡ false) → P t)
    → P (if b then s else t)
choose P true s t f g = f refl
choose P false s t f g = g refl

differs : (d k : ℕ) → (d == k) ≡ false → d ≢ k
differs d k e = ground (arith, e)

-- the digits of a text, read after a number
int_digit : (d n : ℕ) → d < 10 → int_from n (digit d) ≡ some (n * 10 + d)
unfolding int_from
int_digit d n h =
    let P : String → Type 0 = λ s. int_from n s ≡ some (n * 10 + d) in
    let at : (k : ℕ) → (d == k) ≡ true → some (n * 10 + k) ≡ some (n * 10 + d) =
      λ k e. ap (λ x. some (n * 10 + x)) (ground (arith, e)) in
    choose P (d == 0) "0" _ (λ e0. at 0 e0)
      (λ n0.
        (choose P (d == 1) "1" _ (λ e1. at 1 e1)
          (λ n1.
            (choose P (d == 2) "2" _ (λ e2. at 2 e2)
              (λ n2.
                (choose P (d == 3) "3" _ (λ e3. at 3 e3)
                  (λ n3.
                    (choose P (d == 4) "4" _ (λ e4. at 4 e4)
                      (λ n4.
                        (choose P (d == 5) "5" _ (λ e5. at 5 e5)
                          (λ n5.
                            (choose P (d == 6) "6" _ (λ e6. at 6 e6)
                              (λ n6.
                                (choose P (d == 7) "7" _ (λ e7. at 7 e7)
                                  (λ n7.
                                    (choose P (d == 8) "8" _ (λ e8. at 8 e8)
                                      (λ n8. ap some (
                                        omega (
                                          arith,
                                          h,
                                          differs d 0 n0,
                                          differs d 1 n1,
                                          differs d 2 n2,
                                          differs d 3 n3,
                                          differs d 4 n4,
                                          differs d 5 n5,
                                          differs d 6 n6,
                                          differs d 7 n7,
                                          differs d 8 n8,
                                        )))))))))))))))))))

int_from-append :
    (s t : String) (n m : ℕ) → int_from n s ≡ some m → int_from n (s <> t) ≡ int_from m t
unfolding int_from
int_from-append String.[] t n m h = ap (λ k. int_from k t) (cc (h))
int_from-append (String.◌∷◌ c s) t n m h =
    ground (arith, h, int_from-append s t (n * 10 + (code c - 48)) m)

int-str_from : (fuel n : ℕ) → n ≤ fuel → int_from 0 (str_from fuel n) ≡ some n
unfolding str_from
int-str_from zero n h = int_digit n 0 (omega (arith, h)) ∙ ap some (omega (arith, h))
int-str_from (suc fuel) n h = elim (Bool-cases (ltb n 10)) [
  | inl small ↦ rw small (int_digit n 0 (ltb→lt n 10 small) ∙ ap some (omega arith))
  | inr large ↦ rw large (
      int_from-append (str_from fuel (n / 10)) (digit (n % 10)) 0 (n / 10)
        (int-str_from fuel (n / 10) (omega (arith, h, ltb→le n 10 large)))
      ∙ int_digit (n % 10) (n / 10) (omega arith)
      ∙ ap some (omega arith))
]

pick :
    (b : Bool) (s t : String)
    → is_empty s ≡ false
    → is_empty t ≡ false
    → is_empty (if b then s else t) ≡ false
pick true s t h k = h
pick false s t h k = k

digit_not_empty : (d : ℕ) → is_empty (digit d) ≡ false
digit_not_empty d =
    (pick (d == 0) "0" _ refl (
      pick (d == 1) "1" _ refl (
        pick (d == 2) "2" _ refl (
          pick (d == 3) "3" _ refl (
            pick (d == 4) "4" _ refl (
              pick (d == 5) "5" _ refl (
                pick (d == 6) "6" _ refl
                  (pick (d == 7) "7" _ refl (pick (d == 8) "8" _ refl refl)))))))))

str_not_empty : (fuel n : ℕ) → is_empty (str_from fuel n) ≡ false
unfolding str_from
str_not_empty zero n = digit_not_empty n
str_not_empty (suc fuel) n =
    pick (ltb n 10) (digit n) (str_from fuel (n / 10) <> digit (n % 10)) (digit_not_empty n)
      (append_not_empty (str_from fuel (n / 10)) (digit (n % 10)) (digit_not_empty (n % 10)))

int-str : (n : ℕ) → int (str n) ≡ some n
unfolding int str
int-str n = rw (str_not_empty n n) (int-str_from n n (omega arith))

cut-append : (w r : String) → Free "|" w → cut b'|' (w <> "|" <> r) ≡ some (w, r)
unfolding cut
cut-append String.[] r h = refl
cut-append (String.◌∷◌ c w) r h = ground (arith, h, cut-append w r (ground (arith, h)))

-- the group and the edge node have no bar, and the device is not the empty text
pub record IsPlain (k : AliasKey) : Type 0 where
  pub group_free : Free "|" k.group
  pub edge_node_free : Free "|" k.edge_node
  pub device_named : device_of (device_token k.device) ≡ k.device

parse_key-composite_key : (k : AliasKey) → IsPlain k → parse_key (composite_key k) ≡ some k
unfolding parse_key composite_key
parse_key-composite_key k p =
    rw (cut-append k.group (k.edge_node <> "|" <> device_token k.device) p.group_free) (
      rw (cut-append k.edge_node (device_token k.device) p.edge_node_free)
        (ap (λ d. some (record k { device = d })) p.device_named))

-- a registry whose keys and aliases are pairwise distinct, as those of dicts are
pub record IsRegistry {I : Type 0} (m : Dict AliasKey (Dict ℕ I)) : Type 0 where
  pub plain : All IsPlain (keys m)
  pub distinct : IsDistinct (keys m)
  pub aliases : All (λ e. IsDistinct (keys e.1)) m

module _ {I : Type 0} where
  entries_same : (es : Dict ℕ I) → IsDistinct (keys es) → serialize_entries es ≡ with_keys str es
  unfolding serialize_entries
  entries_same es u =
      from_items_distinct (with_keys str es)
        (with_keys-IsDistinct str int es (All-everywhere (Inverts str int) int-str (keys es)) u)

  int_items_same : (es : Dict ℕ I) → int_items (with_keys str es) ≡ some es
  unfolding int_items
  int_items_same [] = refl
  int_items_same (e ∷ es) = rw (int-str e.0) (rw (int_items_same es) refl)

  abbrev written : Dict AliasKey (Dict ℕ I) → List (String × Dict String I)
  written m = with_keys composite_key (with_values serialize_entries m)

  serialize_same :
      (m : Dict AliasKey (Dict ℕ I)) → IsRegistry m → serialize_alias_maps m ≡ written m
  unfolding serialize_alias_maps
  serialize_same m r =
      let names = keys-with_values serialize_entries m in
      from_items_distinct (written m) (
        with_keys-IsDistinct composite_key parse_key (with_values serialize_entries m)
          (subst (All (Inverts composite_key parse_key)) (sym names) (
            All-map IsPlain (Inverts composite_key parse_key) parse_key-composite_key (keys m)
              r.plain))
          (subst IsDistinct (sym names) r.distinct))

  entry_back : (es : Dict ℕ I) → IsDistinct (keys es) → int_items (serialize_entries es) ≡ some es
  entry_back es u = ap int_items (entries_same es u) ∙ int_items_same es

  written_back :
      (m : Dict AliasKey (Dict ℕ I))
      → All IsPlain (keys m)
      → All (λ e. IsDistinct (keys e.1)) m
      → parsed_items (written m) ≡ some m
  unfolding parsed_items
  written_back [] p a = refl
  written_back (e ∷ m) p a = rw (parse_key-composite_key e.0 p.0) (
      rw (entry_back e.1 a.0) (rw (written_back m p.1 a.1) (rw (from_items_distinct e.1 a.0) refl)))

-- A registry is the same, in the same order, when it is serialised and read back: its groups and edge
-- nodes have no bar, its devices are not empty texts, and its keys and aliases are each distinct.
pub deserialize-serialize :
    {I : Type 0} (m : Dict AliasKey (Dict ℕ I))
    → IsRegistry m
    → deserialize_alias_maps (serialize_alias_maps m) ≡ some m
unfolding deserialize_alias_maps
deserialize-serialize m r =
    rw (serialize_same m r)
      (rw (written_back m r.plain r.aliases) (ap some (from_items_distinct m r.distinct)))
