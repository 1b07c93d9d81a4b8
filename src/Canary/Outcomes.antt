-- ===== src/Canary/Outcomes.antt =====
-- What `_dispatch` comes to: delivered, or given up.
use mathlib.Core.Path.{subst}
use dbirth.Base.{
  ◌-◌, ℕ, zero, suc, ◌+◌, ◌≤◌, ◌<◌, ◌≡◌, ◌⊎◌, inl, inr, refl, ap, ◌∙◌, Bool, true, false, some,
  List, ◌++◌, if◌then◌else◌, length, arith,
}
use dbirth.Base.Result.{ok, err}
use dbirth.Canary.CircuitBreaker.{closed, record_success}
use dbirth.Canary.RetryPolicy.{RetryPolicy, max_attempts}
use dbirth.Canary.Metrics.{inc_requests}
use dbirth.Canary.Client.Sending.{
  SendError, Attempt, handle_session_error, succeed, emit_dead_letter, give_up, gives_up,
  dispatch_from, dispatch,
}
use dbirth.Canary.Client.{CanaryClient, with_metrics}
use dbirth.Canary.Retries.{has_session, goes_on, Retried, Retried-trans, Retried-refl, session_step}
use dbirth.Canary.Dispatch.{round_step, failed_round, delivered_round}

-- The attempts of a range failed, each in a way after which the dispatch goes on.
abbrev pub AllFailed : (ℕ → Attempt) → Bool → ℕ → ℕ → Type 0
AllFailed attempts session from to =
    (j : ℕ)
    → from ≤ j
    → j < to
    → (e : SendError) × ((attempts j).outcome ≡ err e) × (goes_on session e ≡ true)

tries_again :
    (attempt : ℕ) (b : Bool) (p : RetryPolicy)
    → b ≡ true
    → attempt < max_attempts p
    → gives_up attempt b p ≡ false
tries_again attempt b p e h = ground arith

stops :
    (attempt : ℕ) (b : Bool) (p : RetryPolicy)
    → (max_attempts p ≤ attempt) ⊎ (b ≡ false)
    → gives_up attempt b p ≡ true
stops attempt b p h = ground arith

module _ {D : Type 0} where
  Retried-shift :
      (n : ℕ) (a b c : CanaryClient D) → Retried 1 a b → Retried n b c → Retried (suc n) a c
  Retried-shift n a b c p q = subst (λ m. Retried m a c) (omega arith) (Retried-trans 1 n a b c p q)

  letters_of :
      {b b' : Bool} {xs ys : List D} (batch : List D)
      → b' ≡ b
      → ys ≡ xs
      → (if b' then ys ++ batch else ys) ≡ (if b then xs ++ batch else xs)
  letters_of batch p q = cc (p, q)

  stop_cause :
      (n : ℕ) (e : SendError) (c c' : CanaryClient D)
      → Retried n c c'
      → (n ≡ c.retry_policy.retries) ⊎ (goes_on (has_session c) e ≡ false)
      → (max_attempts c'.retry_policy ≤ 1 + n) ⊎ (goes_on (has_session c') e ≡ false)
  stop_cause n e c c' r (inl last) = inl (omega (arith, last, ap (λ x. x.retries) r.policy))
  stop_cause n e c c' r (inr final) = inr (ap (λ b. goes_on b e) r.session ∙ final)

  -- The batch was delivered after n retries.
  pub record IsDelivered (batch : List D) (n : ℕ) (c c' : CanaryClient D) : Type 0 where
    pub success : c'.metrics.success_total ≡ c.metrics.success_total + length batch
    pub retried : c'.metrics.retry_total ≡ c.metrics.retry_total + n
    pub dead : c'.metrics.dead_letter_total ≡ c.metrics.dead_letter_total
    pub failure : c'.metrics.failure_total ≡ c.metrics.failure_total
    pub letters : c'.dead_letters ≡ c.dead_letters
    pub circuit : (c'.circuit.state ≡ closed) × (c'.circuit.failures ≡ 0)

  -- The batch was given up after n retries, and handed to the dead-letter handler, if there is one.
  pub record IsDead (batch : List D) (n : ℕ) (c c' : CanaryClient D) : Type 0 where
    pub success : c'.metrics.success_total ≡ c.metrics.success_total
    pub retried : c'.metrics.retry_total ≡ c.metrics.retry_total + n
    pub dead : c'.metrics.dead_letter_total ≡ c.metrics.dead_letter_total + length batch
    pub failure : c'.metrics.failure_total ≡ c.metrics.failure_total + 1
    pub letters :
        c'.dead_letters
        ≡ (if c.has_dead_letter_handler then c.dead_letters ++ batch else c.dead_letters)

module _ {D : Type 0} (jitter : ℕ → ℕ) (attempts : ℕ → Attempt) (batch : List D) where
  -- n failures lead to the attempt that comes after them.
  abbrev Reaches : ℕ → ℕ → ℕ → ℕ → CanaryClient D → Type 0
  Reaches n fuel total attempt c =
      (c' : CanaryClient D) × (dispatch_from jitter attempts batch (suc total) attempt c
        ≡ dispatch_from jitter attempts batch (suc fuel) (attempt + n) c')
      × Retried n c c'

  reaches :
      (n fuel total attempt : ℕ) (c : CanaryClient D)
      → total ≡ n + fuel
      → attempt + n ≤ max_attempts c.retry_policy
      → AllFailed attempts (has_session c) attempt (attempt + n)
      → Reaches n fuel total attempt c
  reaches zero fuel total attempt c t k failed = (
    c,
    ap (λ x. dispatch_from jitter attempts batch (suc x) attempt c) (omega (arith, t))
        ∙ ap (λ x. dispatch_from jitter attempts batch (suc fuel) x c) (omega arith),
    Retried-refl c,
  )
  reaches (suc n) fuel zero attempt c t k failed = absurd (omega (arith, t))
  reaches (suc n) fuel (suc total) attempt c t k failed =
      let (e, failing, goes) = failed attempt (omega arith) (omega arith) in
      let (c₁, same, once) =
        round_step jitter attempts batch (suc total) attempt e c failing (
          tries_again attempt (goes_on (has_session c) e) c.retry_policy goes (omega (arith, k))) in
      let (c₂, same', more) =
        reaches n fuel total (attempt + 1) c₁ (omega (arith, t))
          (omega (arith, k, ap (λ x. x.retries) once.policy))
          (λ j from to.
            let (e', failing', goes') = failed j (omega (arith, from)) (omega (arith, to)) in
            (e', failing', ap (λ b. goes_on b e') once.session ∙ goes')) in
      (
        c₂,
        same ∙ same' ∙ ap (λ x. dispatch_from jitter attempts batch (suc fuel) x c₂) (omega arith),
        Retried-shift n c c₁ c₂ once more,
      )

  -- If some attempt within the policy succeeds and those before it failed in a way that is tried
  -- again, the batch is delivered with as many retries, nothing is given up and the breaker is
  -- closed.
  pub dispatch_delivers :
      (n : ℕ) (c : CanaryClient D)
      → n ≤ c.retry_policy.retries
      → AllFailed attempts (has_session c) 1 (1 + n)
      → (attempts (1 + n)).outcome ≡ ok tt
      → (c' : CanaryClient D) × (dispatch jitter attempts batch c ≡ some c')
        × IsDelivered batch n c c'
  unfolding dispatch succeed record_success
  dispatch_delivers n c within failed good =
      let counted : CanaryClient D = with_metrics inc_requests c in
      let rest = c.retry_policy.retries - n in
      let (c₁, same, r) =
        reaches n rest c.retry_policy.retries 1 counted (omega arith) (omega (arith, within))
          failed in
      (
        succeed batch (attempts (1 + n)).at c₁,
        same ∙ delivered_round jitter attempts batch rest (1 + n) c₁ good,
        record {
          success = omega (arith, r.success);
          retried = r.retried;
          dead = r.dead;
          failure = r.failure;
          letters = r.letters;
          circuit = (refl, refl);
        },
      )

  -- If some attempt fails, either as the last that the policy allows or in a way that is not tried
  -- again, and those before it failed in a way that is, the batch is given up with as many retries:
  -- each of its diffs is a dead letter, once, and none counts as delivered.
  pub dispatch_gives_up :
      (n : ℕ) (e : SendError) (c : CanaryClient D)
      → n ≤ c.retry_policy.retries
      → AllFailed attempts (has_session c) 1 (1 + n)
      → (attempts (1 + n)).outcome ≡ err e
      → (n ≡ c.retry_policy.retries) ⊎ (goes_on (has_session c) e ≡ false)
      → (c' : CanaryClient D) × (dispatch jitter attempts batch c ≡ some c') × IsDead batch n c c'
  unfolding dispatch give_up emit_dead_letter
  dispatch_gives_up n e c within failed bad ends =
      let counted : CanaryClient D = with_metrics inc_requests c in
      let rest = c.retry_policy.retries - n in
      let (c₁, same, r) =
        reaches n rest c.retry_policy.retries 1 counted (omega arith) (omega (arith, within))
          failed in
      let kept = (session_step e c₁).1 in
      (
        give_up batch (attempts (1 + n)).at (handle_session_error e c₁).1,
        same
            ∙ failed_round jitter attempts batch rest (1 + n) e c₁ bad (
                stops (1 + n) (goes_on (has_session c₁) e) c₁.retry_policy
                  (stop_cause n e counted c₁ r ends)),
        record {
          success = kept.success ∙ r.success;
          retried = omega (arith, kept.retried, r.retried);
          dead = omega (arith, kept.dead, r.dead);
          failure = omega (arith, kept.failure, r.failure);
          letters = letters_of batch (kept.handler ∙ r.handler) (kept.letters ∙ r.letters);
        },
      )
