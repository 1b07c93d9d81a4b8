-- ===== src/Canary/Dispatch.antt =====
-- `_dispatch` ends, and accounts for its batch.
use dbirth.Base.{
  ℕ, zero, suc, ◌+◌, ◌≤◌, ◌≡◌, inl, inr, refl, ap, ◌∙◌, true, false, ◌||◌, Option, some, List,
  length, arith, Bool-cases,
}
use dbirth.Base.Result.{ok, err}
use dbirth.Canary.RetryPolicy.{max_attempts}
use dbirth.Canary.Metrics.{inc_requests}
use dbirth.Canary.Client.Sending.{
  SendError, Attempt, is_retriable, handle_session_error, succeed, emit_dead_letter, give_up,
  gives_up, dispatch_from, dispatch,
}
use dbirth.Canary.Client.{CanaryClient, with_metrics}
use dbirth.Canary.Retries.{
  goes_on, gives_up_last, Result-cases, has_session, Retried, Retried-trans, session_step,
  retry_step,
}

module _ {D : Type 0} where
  -- One round of the loop that is followed by another.
  pub round_step :
      (jitter : ℕ → ℕ) (attempts : ℕ → Attempt) (batch : List D) (fuel attempt : ℕ) (e : SendError)
      (c : CanaryClient D)
      → (attempts attempt).outcome ≡ err e
      → gives_up attempt (goes_on (has_session c) e) c.retry_policy ≡ false
      → (c' : CanaryClient D) × (dispatch_from jitter attempts batch (suc fuel) attempt c
          ≡ dispatch_from jitter attempts batch fuel (attempt + 1) c')
        × Retried 1 c c'
  unfolding dispatch_from
  round_step jitter attempts batch fuel attempt e c failed goes =
      let now = (attempts attempt).at in
      let (invalid, kept) = session_step e c in
      let c₁ = (handle_session_error e c).1 in
      let (c₂, retried, more) = retry_step jitter attempt now c₁ in
      let goes' : gives_up attempt (is_retriable e || (handle_session_error e c).0) c₁.retry_policy
          ≡ false =
        ap (λ b. gives_up attempt (is_retriable e || b) c₁.retry_policy) invalid
        ∙ ap (λ p. gives_up attempt (goes_on (has_session c) e) p) kept.policy
        ∙ goes in
      (c₂, rw (failed, goes', retried, dispatch_from) refl, Retried-trans 0 1 c c₁ c₂ kept more)

  -- Whatever the batch comes to, it is counted once: delivered or as dead letters.
  pub record Settles (batch : List D) (attempt : ℕ) (c c' : CanaryClient D) : Type 0 where
    pub accounted :
        c'.metrics.success_total + c'.metrics.dead_letter_total
        ≡ c.metrics.success_total + c.metrics.dead_letter_total + length batch
    pub retried :
        c'.metrics.retry_total + attempt ≤ c.metrics.retry_total + max_attempts c.retry_policy
    pub queue : c'.queue ≡ c.queue
    pub policy : c'.retry_policy ≡ c.retry_policy
    pub capacity : c'.queue_capacity ≡ c.queue_capacity

  Settles-succeed :
      (batch : List D) (attempt now : ℕ) (c : CanaryClient D)
      → attempt ≤ max_attempts c.retry_policy
      → Settles batch attempt c (succeed batch now c)
  unfolding succeed
  Settles-succeed batch attempt now c h = record {
    accounted = omega arith;
    retried = omega (arith, h);
    queue = refl;
    policy = refl;
    capacity = refl;
  }

  Settles-give_up :
      (batch : List D) (attempt now : ℕ) (c : CanaryClient D)
      → attempt ≤ max_attempts c.retry_policy
      → Settles batch attempt c (give_up batch now c)
  unfolding give_up emit_dead_letter
  Settles-give_up batch attempt now c h = record {
    accounted = omega arith;
    retried = omega (arith, h);
    queue = refl;
    policy = refl;
    capacity = refl;
  }

  Settles-after :
      (n : ℕ) (batch : List D) (attempt next : ℕ) (a b c : CanaryClient D)
      → next ≡ attempt + n
      → Retried n a b
      → Settles batch next b c
      → Settles batch attempt a c
  Settles-after n batch attempt next a b c e p q = record {
    accounted = omega (arith, p.success, p.dead, q.accounted);
    retried = omega (arith, e, p.retried, q.retried, ap (λ x. x.retries) p.policy);
    queue = q.queue ∙ p.queue;
    policy = q.policy ∙ p.policy;
    capacity = q.capacity ∙ p.capacity;
  }

  abbrev Ends : List D → ℕ → CanaryClient D → Option (CanaryClient D) → Type 0
  Ends batch attempt c r = (c' : CanaryClient D) × (r ≡ some c') × Settles batch attempt c c'

  pub failed_round :
      (jitter : ℕ → ℕ) (attempts : ℕ → Attempt) (batch : List D) (fuel attempt : ℕ) (e : SendError)
      (c : CanaryClient D)
      → (attempts attempt).outcome ≡ err e
      → gives_up attempt (goes_on (has_session c) e) c.retry_policy ≡ true
      → dispatch_from jitter attempts batch (suc fuel) attempt c
        ≡ some (give_up batch (attempts attempt).at (handle_session_error e c).1)
  unfolding dispatch_from
  failed_round jitter attempts batch fuel attempt e c failed ends =
      let (invalid, kept) = session_step e c in
      let c₁ = (handle_session_error e c).1 in
      let ends' : gives_up attempt (is_retriable e || (handle_session_error e c).0) c₁.retry_policy
          ≡ true =
        ap (λ b. gives_up attempt (is_retriable e || b) c₁.retry_policy) invalid
        ∙ ap (λ p. gives_up attempt (goes_on (has_session c) e) p) kept.policy
        ∙ ends in
      rw (failed, ends', dispatch_from) refl

  pub delivered_round :
      (jitter : ℕ → ℕ) (attempts : ℕ → Attempt) (batch : List D) (fuel attempt : ℕ)
      (c : CanaryClient D)
      → (attempts attempt).outcome ≡ ok tt
      → dispatch_from jitter attempts batch (suc fuel) attempt c
        ≡ some (succeed batch (attempts attempt).at c)
  unfolding dispatch_from
  delivered_round jitter attempts batch fuel attempt c h = rw (h, dispatch_from) refl

  delivers_here :
      (jitter : ℕ → ℕ) (attempts : ℕ → Attempt) (batch : List D) (fuel attempt : ℕ)
      (c : CanaryClient D)
      → attempt + fuel ≡ max_attempts c.retry_policy
      → (attempts attempt).outcome ≡ ok tt
      → Ends batch attempt c (dispatch_from jitter attempts batch (suc fuel) attempt c)
  delivers_here jitter attempts batch fuel attempt c h good = (
    succeed batch (attempts attempt).at c,
    delivered_round jitter attempts batch fuel attempt c good,
    Settles-succeed batch attempt (attempts attempt).at c (omega (arith, h)),
  )

  stops_here :
      (jitter : ℕ → ℕ) (attempts : ℕ → Attempt) (batch : List D) (fuel attempt : ℕ) (e : SendError)
      (c : CanaryClient D)
      → attempt + fuel ≡ max_attempts c.retry_policy
      → (attempts attempt).outcome ≡ err e
      → gives_up attempt (goes_on (has_session c) e) c.retry_policy ≡ true
      → Ends batch attempt c (dispatch_from jitter attempts batch (suc fuel) attempt c)
  stops_here jitter attempts batch fuel attempt e c h failed ends =
      let kept = (session_step e c).1 in
      let c₁ = (handle_session_error e c).1 in
      (
        give_up batch (attempts attempt).at c₁,
        failed_round jitter attempts batch fuel attempt e c failed ends,
        Settles-after 0 batch attempt attempt c c₁ (give_up batch (attempts attempt).at c₁)
            (omega arith) kept
            (Settles-give_up batch attempt (attempts attempt).at c₁
              (omega (arith, h, ap (λ x. x.retries) kept.policy))),
      )

  goes_further :
      (jitter : ℕ → ℕ) (attempts : ℕ → Attempt) (batch : List D) (fuel attempt : ℕ) (e : SendError)
      (c : CanaryClient D)
      → attempt + suc fuel ≡ max_attempts c.retry_policy
      → (attempts attempt).outcome ≡ err e
      → gives_up attempt (goes_on (has_session c) e) c.retry_policy ≡ false
      → ((c' : CanaryClient D)
          → attempt + 1 + fuel ≡ max_attempts c'.retry_policy
          → Ends batch
              (attempt + 1)
              c'
              (dispatch_from jitter attempts batch (suc fuel) (attempt + 1) c'))
      → Ends batch attempt c (dispatch_from jitter attempts batch (suc (suc fuel)) attempt c)
  goes_further jitter attempts batch fuel attempt e c h failed goes rest =
      let (c₁, same, retried) =
        round_step jitter attempts batch (suc fuel) attempt e c failed goes in
      let (c', ends, settles) = rest c₁ (omega (arith, h, ap (λ x. x.retries) retried.policy)) in
      (c', same ∙ ends, Settles-after 1 batch attempt (attempt + 1) c c₁ c' refl retried settles)

  loop-Ends :
      (jitter : ℕ → ℕ) (attempts : ℕ → Attempt) (batch : List D) (fuel attempt : ℕ)
      (c : CanaryClient D)
      → attempt + fuel ≡ max_attempts c.retry_policy
      → Ends batch attempt c (dispatch_from jitter attempts batch (suc fuel) attempt c)
  loop-Ends jitter attempts batch zero attempt c h =
      elim (Result-cases (attempts attempt).outcome) [
        | inl good ↦ delivers_here jitter attempts batch zero attempt c h good
        | inr (e, failed) ↦
            stops_here jitter attempts batch zero attempt e c h failed
              (gives_up_last attempt (goes_on (has_session c) e) c.retry_policy (omega (arith, h)))
      ]
  loop-Ends jitter attempts batch (suc fuel) attempt c h =
      elim (Result-cases (attempts attempt).outcome) [
        | inl good ↦ delivers_here jitter attempts batch (suc fuel) attempt c h good
        | inr (e, failed) ↦
            elim (Bool-cases (gives_up attempt (goes_on (has_session c) e) c.retry_policy)) [
              | inl ends ↦ stops_here jitter attempts batch (suc fuel) attempt e c h failed ends
              | inr goes ↦
                  goes_further jitter attempts batch fuel attempt e c h failed goes
                    (λ c' k. loop-Ends jitter attempts batch fuel (attempt + 1) c' k)
            ]
      ]

  -- A dispatch ends within the attempts of the policy, without an error of its own, and counts every
  -- diff of its batch once: as delivered or as a dead letter. It retries at most as often as the
  -- policy allows, and leaves the queue alone.
  pub dispatch-Settles :
      (jitter : ℕ → ℕ) (attempts : ℕ → Attempt) (batch : List D) (c : CanaryClient D)
      → (c' : CanaryClient D) × (dispatch jitter attempts batch c ≡ some c')
        × Settles batch 1 (with_metrics inc_requests c) c'
  unfolding dispatch
  dispatch-Settles jitter attempts batch c =
      loop-Ends jitter attempts batch c.retry_policy.retries 1 (with_metrics inc_requests c)
        (omega arith)
