-- ===== src/Birth/Aliases/Throttle.antt =====
-- Two requests for the rebirth of one key are apart by the throttle.
use dbirth.Base.{
  ℕ, ◌+◌, ◌≤◌, String, Bool, true, false, ◌≡◌, refl, sym, ap, ◌∙◌, arith, Option, none, some, List,
  [], ◌∷◌, if◌then◌else◌, All, All-map, ◌==◌,
}
use dbirth.Base.Dict.{get, get-put}
use dbirth.Base.Strings.{is_empty}
use dbirth.Birth.AliasCache.{AliasKey, alias_key, AliasKey-discrete}
use dbirth.Birth.Aliases.{
  AliasInfo, Rebirths, Request, Subscriber, value_or, publish_when, may_publish,
  may_request_rebirth, ingest_birth, known, node_key, found_or_request, resolve_name,
}
use dbirth.Birth.Payload.{Metric}

-- every request comes at least the throttle after each earlier one for its key
abbrev pub IsSpaced : ℕ → List Request → Type 0
IsSpaced throttle [] = Unit
IsSpaced throttle (r ∷ rs) =
    All (λ q. q.key ≡ r.key → q.at + throttle ≤ r.at) rs × IsSpaced throttle rs

module _ {F : Type 0} where
  -- the time that is kept for the key of a request is not before it
  pub record Covered (s : Subscriber F) (r : Request) : Type 0 where
    pub last : ℕ
    pub kept : get r.key s.last_rebirth_request ≡ some last
    pub before : r.at ≤ last

  pub record Throttled (settings : Rebirths) (s : Subscriber F) : Type 0 where
    pub spaced : IsSpaced settings.rebirth_throttle_seconds s.published
    pub covered : All (Covered s) s.published

module _ {F : Type 0} (settings : Rebirths) (key : AliasKey) (now : ℕ) (s : Subscriber F) where
  abbrev after : Subscriber F
  after = publish_when true key now s

  allowed_time :
      (last : Option ℕ)
      → get key s.last_rebirth_request ≡ last
      → may_publish settings key now s ≡ true
      → value_or 0 last + settings.rebirth_throttle_seconds ≤ now
  allowed_time last e h = ground (arith, e, h)

  spaced_from :
      (r : Request)
      → may_publish settings key now s ≡ true
      → Covered s r
      → r.key ≡ key
      → r.at + settings.rebirth_throttle_seconds ≤ now
  spaced_from r h c e =
      let kept : get key s.last_rebirth_request ≡ some c.last =
        ap (λ k. get k s.last_rebirth_request) (sym e) ∙ c.kept in
      omega (arith, allowed_time (some c.last) kept h, c.before)

  publish_when-Covered :
      (r : Request) → may_publish settings key now s ≡ true → Covered s r → Covered after r
  publish_when-Covered r h c = elim (AliasKey-discrete key r.key) [
    | yes e ↦ record {
      last = now;
      kept = get-put key r.key now s.last_rebirth_request ∙ ground (arith, e);
      before = omega (arith, spaced_from r h c (sym e));
    }
    | no n ↦ record {
      last = c.last;
      kept = get-put key r.key now s.last_rebirth_request ∙ ground (arith, n) ∙ c.kept;
      before = c.before;
    }
  ]

  publish-Throttled :
      (b : Bool)
      → may_publish settings key now s ≡ b
      → Throttled settings s
      → Throttled settings (publish_when b key now s)
  publish-Throttled false e t = t
  publish-Throttled true e t = record {
    spaced = (
      All-map (Covered s) (λ q. q.key ≡ key → q.at + settings.rebirth_throttle_seconds ≤ now)
          (λ q c k. spaced_from q e c k) s.published t.covered,
      t.spaced,
    );
    covered = (
      record {
        last = now;
        kept = get-put key key now s.last_rebirth_request ∙ ground arith;
        before = omega arith;
      },
      All-map (Covered s) (Covered after) (λ q c. publish_when-Covered q e c) s.published t.covered,
    );
  }

  pub may_request_rebirth-Throttled :
      Throttled settings s → Throttled settings (may_request_rebirth settings key now s)
  unfolding may_request_rebirth
  may_request_rebirth-Throttled t = publish-Throttled (may_publish settings key now s) refl t

module _ {F : Type 0} (settings : Rebirths) where
  found-Throttled :
      (key : AliasKey) (alias now : ℕ) (here at_node : Option (AliasInfo F)) (s : Subscriber F)
      → Throttled settings s
      → Throttled settings (found_or_request settings key alias now here at_node s).1
  found-Throttled key alias now (some info) at_node s t = t
  found-Throttled key alias now none (some info) s t = t
  found-Throttled key alias now none none s t = may_request_rebirth-Throttled settings key now s t

  if-Throttled :
      (b : Bool) (x y : String × Subscriber F)
      → Throttled settings x.1
      → Throttled settings y.1
      → Throttled settings (if b then x else y).1
  if-Throttled true x y h k = h
  if-Throttled false x y h k = k

  pub resolve_name-Throttled :
      (key : AliasKey) (m : Metric F) (now : ℕ) (s : Subscriber F)
      → Throttled settings s
      → Throttled settings (resolve_name settings key m now s).1
  unfolding resolve_name
  resolve_name-Throttled key m now s t =
      let found =
        found_or_request settings key m.alias now (known key m.alias s)
          (known (node_key key) m.alias s) s in
      if-Throttled (is_empty m.name) (if m.alias == 0 then ("", s) else found) (m.name, s)
        (if-Throttled (m.alias == 0) ("", s) found t
          (found-Throttled key m.alias now (known key m.alias s) (known (node_key key) m.alias s) s
            t))
        t

  pub ingest_birth-Throttled :
      (key : AliasKey) (ms : List (Metric F)) (s : Subscriber F)
      → Throttled settings s
      → Throttled settings (ingest_birth key ms s)
  unfolding ingest_birth
  ingest_birth-Throttled key ms s t = record {
    spaced = t.spaced;
    covered =
        All-map (Covered s) (Covered (ingest_birth key ms s))
          (λ q c. record { last = c.last; kept = c.kept; before = c.before }) s.published t.covered;
  }
