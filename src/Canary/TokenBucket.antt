-- ===== src/Canary/TokenBucket.antt =====
-- `TokenBucket`. A time is in ticks, and tokens are in parts of which one tick at a rate of one
-- brings one: `tokens`, `capacity` and what is asked for are in these parts.
use dbirth.Base.{
  ◌<◌, ap, ◌∙◌, leb→lt, leb→le, ℕ, ◌+◌, ◌-◌, ◌*◌, ◌≤◌, min, ◌≡◌, refl, Bool, true, false, List, [],
  ◌∷◌, if◌then◌else◌, leb, ◌==◌, arith, Bool-cases, inl, inr,
}
use dbirth.Base.Result.{Result, ok, err}

-- A length of time: a quotient of parts by a rate, which is not zero, in ticks.
pub record Duration : Type 0 where
  pub parts : ℕ
  pub rate : ℕ

abbrev pub ticks : ℕ → Duration
ticks n = record { parts = n; rate = 1 }

pub record TokenBucket : Type 0 where
  pub rate : ℕ
  pub capacity : ℕ
  pub tokens : ℕ
  pub updated_at : ℕ

-- The `ValueError`s of the constructor.
pub data Refusal : Type 0 where
  bad_rate bad_capacity : Refusal

unfoldable pub open_bucket : ℕ → ℕ → ℕ → Result Refusal TokenBucket
open_bucket rate capacity now =
    if rate == 0
    then err bad_rate
    else if capacity == 0
    then err bad_capacity
    else ok (record { rate = rate; capacity = capacity; tokens = capacity; updated_at = now })

-- `_refill`; a clock that went back leaves the bucket alone
unfoldable pub refill : ℕ → TokenBucket → TokenBucket
refill now b = if leb now b.updated_at then b else record b {
  tokens = min b.capacity (b.tokens + (now - b.updated_at) * b.rate);
  updated_at = now;
}

-- `consume`, at the clock's time
unfoldable pub consume : ℕ → ℕ → TokenBucket → Bool × TokenBucket
unfolding refill
consume tokens now b =
    let b' = refill now b in
    if leb tokens b'.tokens then (true, record b' { tokens = b'.tokens - tokens }) else (false, b')

-- `time_until_ready`, at the clock's time
unfoldable pub time_until_ready : ℕ → ℕ → TokenBucket → Duration × TokenBucket
unfolding refill
time_until_ready tokens now b =
    let b' = refill now b in
    if leb tokens b'.tokens
    then (ticks 0, b')
    else (record { parts = tokens - b'.tokens; rate = b'.rate }, b')

-- The tokens never exceed the capacity.
abbrev pub IsWithin : TokenBucket → Type 0
IsWithin b = b.tokens ≤ b.capacity

-- What was consumed, for a list of attempts, each with what it asks for and the clock's time.
unfoldable pub consume_all : List (ℕ × ℕ) → TokenBucket → ℕ × TokenBucket
unfolding consume
consume_all [] b = (0, b)
consume_all ((tokens, now) ∷ attempts) b =
    let (granted, b') = consume tokens now b in
    let (total, b'') = consume_all attempts b' in ((if granted then tokens else 0) + total, b'')

refill-IsWithin : (now : ℕ) (b : TokenBucket) → IsWithin b → IsWithin (refill now b)
unfolding refill
refill-IsWithin now b h = ground arith

elapsed : (u now r : ℕ) → u ≤ now → (now - u) * r + u * r ≡ now * r
elapsed u now r h = grind (arith)

-- What a refill brings is paid for by time that passed.
refill_paid :
    (now : ℕ) (b : TokenBucket)
    → let b' = refill now b in
      (b'.rate ≡ b.rate)
      × (b.updated_at ≤ b'.updated_at)
      × (b'.tokens + b.updated_at * b.rate ≤ b.tokens + b'.updated_at * b.rate)
unfolding refill
refill_paid now b = elim (Bool-cases (leb now b.updated_at)) [
  | inl e ↦ rw (e, refill) (refl, omega arith, omega arith)
  | inr e ↦
      let later = leb→lt now b.updated_at e in
      rw (e, refill)
        (refl, omega arith, omega (arith, elapsed b.updated_at now b.rate (omega (arith, later))))
]

consume_paid :
    (tokens now : ℕ) (b : TokenBucket)
    → let (granted, b') = consume tokens now b in
      (b'.rate ≡ b.rate)
      × (b.updated_at ≤ b'.updated_at)
      × ((if granted then tokens else 0) + b'.tokens + b.updated_at * b.rate
          ≤ b.tokens + b'.updated_at * b.rate)
unfolding consume
consume_paid tokens now b =
    let (r, u, t) = refill_paid now b in
    elim (Bool-cases (leb tokens (refill now b).tokens)) [
      | inl e ↦
          let enough = leb→le tokens (refill now b).tokens e in
          rw (e, consume) (r, u, omega (arith, t))
      | inr e ↦ rw (e, consume) (r, u, omega (arith, t))
    ]

consume-IsWithin :
    (tokens now : ℕ) (b : TokenBucket) → IsWithin b → IsWithin (consume tokens now b).1
unfolding consume
consume-IsWithin tokens now b h =
    let h' : IsWithin (refill now b) = refill-IsWithin now b h in ground arith

spent :
    (attempts : List (ℕ × ℕ)) (b : TokenBucket)
    → let (total, b') = consume_all attempts b in
      (b'.rate ≡ b.rate)
      × (b.updated_at ≤ b'.updated_at)
      × (total + b'.tokens + b.updated_at * b.rate ≤ b.tokens + b'.updated_at * b.rate)
unfolding consume_all
spent [] b = (refl, omega arith, omega arith)
spent ((tokens, now) ∷ attempts) b =
    let (r, u, t) = consume_paid tokens now b in
    let (r', u', t') = spent attempts (consume tokens now b).1 in
    let t'' = ap (λ x. (consume_all attempts (consume tokens now b).1).1.updated_at * x) r in
    let v = ap (λ x. (consume tokens now b).1.updated_at * x) r in
    (r' ∙ r, omega (arith, u, u'), omega (arith, t, t', t'', v))

all-IsWithin :
    (attempts : List (ℕ × ℕ)) (b : TokenBucket) → IsWithin b → IsWithin (consume_all attempts b).1
unfolding consume_all
all-IsWithin [] b h = h
all-IsWithin ((tokens, now) ∷ attempts) b h =
    all-IsWithin attempts (consume tokens now b).1 (consume-IsWithin tokens now b h)

-- Whatever is asked for and however the clock moves, the tokens that were granted in all are at
-- most those that were there and those that the time that passed brings at the rate: a burst of at
-- most the capacity, and then the rate.
pub consume_all_rate :
    (attempts : List (ℕ × ℕ)) (b : TokenBucket)
    → IsWithin b
    → let (total, b') = consume_all attempts b in
      (total ≤ b.capacity + (b'.updated_at - b.updated_at) * b.rate) × IsWithin b'
unfolding consume_all
consume_all_rate attempts b h =
    let (r, u, t) = spent attempts b in
    (
      omega (arith, t, h, elapsed b.updated_at (consume_all attempts b).1.updated_at b.rate u),
      all-IsWithin attempts b h,
    )

refill_enough :
    (tokens now later : ℕ) (b : TokenBucket)
    → tokens ≤ b.capacity
    → b.updated_at ≤ now
    → now < later
    → tokens - (refill now b).tokens ≤ (later - now) * b.rate
    → (consume tokens later (refill now b)).0 ≡ true
unfolding consume refill
refill_enough tokens now later b fits fresh after paid = ground arith

waiting :
    (tokens now later : ℕ) (b : TokenBucket)
    → let (wait_time, b') = time_until_ready tokens now b in
      now * wait_time.rate + wait_time.parts ≤ later * wait_time.rate
      → now ≤ later
      → (b' ≡ refill now b) × (tokens - (refill now b).tokens ≤ (later - now) * b.rate)
unfolding time_until_ready
waiting tokens now later b waited after = elim (Bool-cases (leb tokens (refill now b).tokens)) [
  | inl e ↦
      let enough = leb→le tokens (refill now b).tokens e in
      rw (e, time_until_ready) (refl, omega (arith, enough))
  | inr e ↦
      let paid : now * b.rate + (tokens - (refill now b).tokens) ≤ later * b.rate =
        ground (arith, e, waited, (refill_paid now b).0) in
      rw (e, time_until_ready) (refl, omega (arith, paid, elapsed now later b.rate after))
]

-- If the clock does not go back, a caller that asks again when the time it was told has passed is
-- granted the tokens, as long as they are within the capacity and nobody else took some.
pub time_until_ready_enough :
    (tokens now later : ℕ) (b : TokenBucket)
    → tokens ≤ b.capacity
    → b.updated_at ≤ now
    → now < later
    → let (wait_time, b') = time_until_ready tokens now b in
      now * wait_time.rate + wait_time.parts ≤ later * wait_time.rate
      → (consume tokens later b').0 ≡ true
time_until_ready_enough tokens now later b fits fresh after waited =
    let (same, paid) = waiting tokens now later b waited (omega (arith, after)) in
    ap (λ x. (consume tokens later x).0) same
    ∙ refill_enough tokens now later b fits fresh after (omega (arith, paid))
