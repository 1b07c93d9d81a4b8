-- ===== src/Birth/AliasCache.antt =====
-- `alias_cache.py`: the registry of aliases as text and back. What is kept of an alias is of any
-- type; `json.loads` and `json.dumps` are parameters.
pub mod RoundTrip
use Prim.Native.Char.{code}
use Prim.Native.String
use dbirth.Base.{
  ℕ, zero, suc, ◌+◌, ◌*◌, ◌-◌, ◌/◌, ◌%◌, String, Bool, true, false, ◌&&◌, ◌≡◌, refl, ap, ◌∙◌,
  Option, none, some, List, [], ◌∷◌, ◌==◌, leb, ltb, if◌then◌else◌,
}
use dbirth.Base.Dict.{Hashable, Dict, string_key, nat_key, String-discrete}
use dbirth.Base.Dict.Items.{from_items, with_keys, with_values}
use dbirth.Base.Strings.{is_empty, ◌<>◌}
use dbirth.Base.Options.{◌>>=◌, option_map}
use dbirth.Base.Text.{digit}

-- `AliasKey`: the group, the edge node, and the device or none
pub record AliasKey : Type 0 where
  pub group : String
  pub edge_node : String
  pub device : Option String

same_device : (a b : Option String) → Dec (a ≡ b)
same_device none none = yes refl
same_device none (some b) = no (λ p. absurd (cc (p)))
same_device (some a) none = no (λ p. absurd (cc (p)))
same_device (some a) (some b) = of (String-discrete a b)
  where
    of : Dec (a ≡ b) → Dec (some a ≡ some b)
    of (yes p) = yes (ap some p)
    of (no n) = no (λ p. n (cc (p)))

key_parts :
    (a b : AliasKey)
    → Dec (a.group ≡ b.group)
    → Dec (a.edge_node ≡ b.edge_node)
    → Dec (a.device ≡ b.device)
    → Dec (a ≡ b)
key_parts a b (yes p) (yes q) (yes r) = yes (
    ap (λ g. record a { group = g }) p
    ∙ ap (λ e. record b { edge_node = e; device = a.device }) q
    ∙ ap (λ d. record b { device = d }) r)
key_parts a b (no n) q r = no (λ e. n (ap (λ k. k.group) e))
key_parts a b (yes p) (no n) r = no (λ e. n (ap (λ k. k.edge_node) e))
key_parts a b (yes p) (yes q) (no n) = no (λ e. n (ap (λ k. k.device) e))

unfoldable pub AliasKey-discrete : Discrete AliasKey
unfolding same_device key_parts
AliasKey-discrete a b =
    key_parts a b (String-discrete a.group b.group) (String-discrete a.edge_node b.edge_node)
      (same_device a.device b.device)

instance abbrev pub alias_key : Hashable AliasKey
alias_key = record { same = AliasKey-discrete }

-- `str(n)`: the decimal digits, with the number of divisions that are left
unfoldable pub str_from : ℕ → ℕ → String
str_from zero n = digit n
str_from (suc fuel) n =
    let rest = str_from fuel (n / 10) in if ltb n 10 then digit n else rest <> digit (n % 10)

unfoldable pub str : ℕ → String
unfolding str_from
str n = str_from n n

-- `int(text)`, after the digits that were read. Texts with blanks, signs or underscores, which Python
-- takes too and `str` never makes, are refused.
unfoldable pub int_from : ℕ → String → Option ℕ
int_from n String.[] = some n
int_from n (String.◌∷◌ c s) =
    let rest = int_from (n * 10 + (code c - 48)) s in
    if leb 48 (code c) && leb (code c) 57 then rest else none

unfoldable pub int : String → Option ℕ
unfolding int_from
int s = if is_empty s then none else int_from 0 s

-- the text before and after the first separator
unfoldable pub cut : ℕ → String → Option (String × String)
cut sep String.[] = none
cut sep (String.◌∷◌ c s) =
    let rest = option_map (λ p. (String.◌∷◌ c p.0, p.1)) (cut sep s) in
    if code c == sep then some ("", s) else rest

abbrev pub device_token : Option String → String
device_token none = ""
device_token (some device) = device

-- `f"{group}|{edge_node}|{device_token}"`
unfoldable pub composite_key : AliasKey → String
composite_key k = k.group <> "|" <> k.edge_node <> "|" <> device_token k.device

-- `device_token or None`
abbrev pub device_of : String → Option String
device_of t = if is_empty t then none else some t

-- `composite_key.split("|", 2)` and its unpacking; none is a ValueError
unfoldable pub parse_key : String → Option AliasKey
unfolding cut
parse_key s = do
  (group, rest) ← cut b'|' s
  (edge_node, token) ← cut b'|' rest
  some (record { group = group; edge_node = edge_node; device = device_of token })

module _ {I : Type 0} where
  -- `{str(alias): info for alias, info in entries.items()}`
  unfoldable pub serialize_entries : Dict ℕ I → Dict String I
  unfolding str
  serialize_entries entries = from_items (with_keys str entries)

  -- `serialize_alias_maps`
  unfoldable pub serialize_alias_maps : Dict AliasKey (Dict ℕ I) → Dict String (Dict String I)
  unfolding serialize_entries composite_key
  serialize_alias_maps m = from_items (with_keys composite_key (with_values serialize_entries m))

  unfoldable pub int_items : List (String × I) → Option (List (ℕ × I))
  unfolding int
  int_items [] = some []
  int_items (e ∷ es) = do alias ← int e.0; rest ← int_items es; some ((alias, e.1) ∷ rest)

  unfoldable pub parsed_items : List (String × Dict String I) → Option (List (AliasKey × Dict ℕ I))
  unfolding parse_key int_items
  parsed_items [] = some []
  parsed_items (e ∷ es) = do
    key ← parse_key e.0
    entries ← int_items e.1
    rest ← parsed_items es
    some ((key, from_items entries) ∷ rest)

  -- `deserialize_alias_maps`; none is a ValueError
  unfoldable pub deserialize_alias_maps :
      Dict String (Dict String I) → Option (Dict AliasKey (Dict ℕ I))
  unfolding parsed_items
  deserialize_alias_maps loaded = option_map from_items (parsed_items loaded)

  -- `load_alias_cache` of a file that is not there, or of its text
  unfoldable pub load_alias_cache :
      (String → Option (Dict String (Dict String I)))
      → Option String
      → Option (Dict AliasKey (Dict ℕ I))
  unfolding deserialize_alias_maps
  load_alias_cache loads none = some []
  load_alias_cache loads (some raw) = do loaded ← loads raw; deserialize_alias_maps loaded

  -- `save_alias_cache`: the text of the file
  unfoldable pub save_alias_cache :
      (Dict String (Dict String I) → String) → Dict AliasKey (Dict ℕ I) → String
  unfolding serialize_alias_maps
  save_alias_cache dumps m = dumps (serialize_alias_maps m) <> "\n"
