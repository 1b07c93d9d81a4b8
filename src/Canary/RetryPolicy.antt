-- ===== src/Canary/RetryPolicy.antt =====
-- `RetryPolicy`. Delays are in ticks.
use dbirth.Base.{
  ℕ, zero, suc, ◌+◌, ◌-◌, ◌*◌, ◌^◌, ◌≤◌, min, ◌≡◌, refl, Option, none, some, List, [], ◌∷◌,
  if◌then◌else◌, leb, ◌==◌, ◌||◌, arith, length, ◌<◌, ap, sym, ◌∙◌, Bool-cases, inl, inr, leb→le,
  leb→lt,
}
use native.Mathlib.Nat.{one-le-pow, pow-succ', mul_assoc}

pub record RetryPolicy : Type 0 where
  pub retries : ℕ
  pub limits : List ℕ

-- the loop of the constructor, over `range(retries)`
unfoldable pub limits_from : ℕ → ℕ → ℕ → List ℕ
limits_from zero delay max_delay = []
limits_from (suc n) delay max_delay =
    min delay max_delay ∷ limits_from n (min (delay * 2) max_delay) max_delay

-- The constructor; none is the `ValueError` of a delay that is not positive.
unfoldable pub open_policy : ℕ → ℕ → ℕ → Option RetryPolicy
unfolding limits_from
open_policy attempts base_delay max_delay =
    if base_delay == 0 || max_delay == 0
    then none
    else some (record { retries = attempts; limits = limits_from attempts base_delay max_delay })

abbrev pub max_attempts : RetryPolicy → ℕ
max_attempts p = p.retries + 1

-- `xs[i]`, none where that raises
unfoldable pub item : {A : Type 0} → ℕ → List A → Option A
item i [] = none
item zero (x ∷ xs) = some x
item (suc i) (x ∷ xs) = item i xs

-- `next_delay`; none is an `IndexError`, which the guard on the index excludes
unfoldable pub next_delay : (ℕ → ℕ) → ℕ → RetryPolicy → Option ℕ
unfolding item
next_delay jitter attempt p =
    if leb attempt 1
    then some 0
    else if length p.limits == 0
    then some 0
    else elim (item (min (attempt - 2) (length p.limits - 1)) p.limits) [
      | none ↦ none
      | some limit ↦ some (jitter limit)
    ]

abbrev pub all_delays : RetryPolicy → List ℕ
all_delays p = p.limits

one_le_pow : (k : ℕ) → 1 ≤ 2 ^ k
one_le_pow k = one-le-pow k 2 (omega arith)

grows : (x k : ℕ) → x ≤ x * 2 ^ k
grows x k = grind (arith, one_le_pow k)

capped : (delay most k : ℕ) → min (min delay most * 2 ^ k) most ≡ min (delay * 2 ^ k) most
capped delay most k = elim (Bool-cases (leb delay most)) [
  | inl e ↦ ap (λ x. min (x * 2 ^ k) most) (omega (arith, leb→le delay most e))
  | inr e ↦
      let over = leb→lt delay most e in
      ap (λ x. min (x * 2 ^ k) most) {y = most} (omega (arith, over))
      ∙ omega (arith, over, grows most k, grows delay k)
]

length-limits_from : (n delay most : ℕ) → length (limits_from n delay most) ≡ n
unfolding limits_from
length-limits_from zero delay most = refl
length-limits_from (suc n) delay most =
    omega (arith, length-limits_from n (min (delay * 2) most) most)

item-limits_from :
    (n k delay most : ℕ)
    → k < n
    → item k (limits_from n delay most) ≡ some (min (delay * 2 ^ k) most)
unfolding item limits_from
item-limits_from zero k delay most h = absurd (omega arith)
item-limits_from (suc n) zero delay most h = ap (λ x. some (min x most)) (omega arith)
item-limits_from (suc n) (suc k) delay most h =
    item-limits_from n k (min (delay * 2) most) most (omega arith)
    ∙ ap some (
        capped (delay * 2) most k
        ∙ ap (λ x. min x most)
            (mul_assoc delay 2 (2 ^ k) ∙ ap (λ x. delay * x) (sym (pow-succ' 2 k))))

opened :
    (attempts base_delay most : ℕ) (p : RetryPolicy)
    → open_policy attempts base_delay most ≡ some p
    → p.limits ≡ limits_from attempts base_delay most
unfolding open_policy
opened attempts base_delay most p e = ground arith

retry_delay :
    (jitter : ℕ → ℕ) (k i limit : ℕ) (p : RetryPolicy)
    → 0 < length p.limits
    → i ≡ min k (length p.limits - 1)
    → item i p.limits ≡ some limit
    → next_delay jitter (k + 2) p ≡ some (jitter limit)
unfolding next_delay
retry_delay jitter k i limit p some_limit at found = ground (arith)

-- A policy of the constructor has a delay for every attempt: none before the first, and before the
-- attempt k + 2, within the retries, the jitter of the base delay doubled k times, cut at the
-- largest delay; a later attempt gets the delay of the last retry.
pub next_delay_closed :
    (jitter : ℕ → ℕ) (attempts base_delay most : ℕ) (p : RetryPolicy)
    → open_policy attempts base_delay most ≡ some p
    → (next_delay jitter 1 p ≡ some 0)
      × ((k : ℕ)
          → k < attempts
          → next_delay jitter (k + 2) p ≡ some (jitter (min (base_delay * 2 ^ k) most)))
      × ((k m : ℕ)
          → attempts ≡ suc m
          → attempts ≤ k
          → next_delay jitter (k + 2) p ≡ some (jitter (min (base_delay * 2 ^ m) most)))
unfolding next_delay open_policy
next_delay_closed jitter attempts base_delay most p e =
    let limits = opened attempts base_delay most p e in
    let n : length p.limits ≡ attempts =
      ap length limits ∙ length-limits_from attempts base_delay most in
    let found : (k : ℕ) → k < attempts → item k p.limits ≡ some (min (base_delay * 2 ^ k) most) =
      λ k h. ap (item k) limits ∙ item-limits_from attempts k base_delay most h in
    (
      refl,
      λ k h.
          retry_delay jitter k k (min (base_delay * 2 ^ k) most) p (omega (arith, n, h))
            (omega (arith, n, h)) (found k h),
      λ k m last h.
          retry_delay jitter k m (min (base_delay * 2 ^ m) most) p (omega (arith, n, last))
            (omega (arith, n, h, last)) (found m (omega (arith, last))),
    )
