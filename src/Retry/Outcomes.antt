-- ===== src/Retry/Outcomes.antt =====
-- How a run of `request` of scripts/lib/http_retry.py ends.
use ci_workflows.Base.{
  ℕ, zero, suc, ◌+◌, ◌-◌, ◌<◌, true, false, ◌≡◌, ◌≢◌, ◌⊎◌, inl, inr, refl, sym, subst, arith,
  Option, none, some, Bool-cases, positive,
}
use ci_workflows.Retry.{
  Exc, Attempt, response, failure, World, Outcome, returned, raised, retry_exhausted, value_error,
  Config, is_retryable, loop, pause, request,
}

module _ (W : World) where
  -- So many requests in a row end in a failure of the network, with the waits of `request` between
  -- them, and lead from one state to another.
  abbrev pub Retries : Config → ℕ → ℕ → W.State → W.State → Type 0
  Retries c zero attempt s t = s ≡ t
  Retries c (suc k) attempt s t =
      (exc : Exc) × (((W.opener c.per_attempt_timeout s).0 ≡ failure exc)
        × ((is_retryable exc ≡ true)
            × Retries c k (attempt + 1) (pause W c attempt (W.opener c.per_attempt_timeout s).1) t))

  -- The end of a run, by what the opener gives behind so many retries of `allowed` requests: the
  -- response; a failure that is not transient; or, no request being left, the transient one.
  abbrev pub Ends : Config → ℕ → ℕ → Attempt W.Response → Outcome W.Response → Type 0
  Ends c allowed k given (returned r) = (k < allowed) × (given ≡ response r)
  Ends c allowed k given (raised exc) =
      (k < allowed) × ((given ≡ failure exc) × (is_retryable exc ≡ false))
  Ends c allowed k given (retry_exhausted n elapsed last) =
      (suc k ≡ allowed) × ((n ≡ c.attempts) × ((given ≡ failure last) × (is_retryable last ≡ true)))
  Ends c allowed k given value_error = ⊥

  abbrev pub IsDecided : Config → ℕ → ℕ → W.State → Outcome W.Response → Type 0
  IsDecided c allowed attempt s out =
      (k : ℕ) × ((t : W.State) × (Retries c k attempt s t
          × Ends c allowed k (W.opener c.per_attempt_timeout t).0 out))

  -- What one round of the loop comes to, by what the opener does.
  module _ (c : Config) (start left attempt : ℕ) (last : Option Exc) (s : W.State) where
    abbrev pub opened : Attempt W.Response × W.State
    opened = W.opener c.per_attempt_timeout s

    pub loop_response :
        (r : W.Response)
        → opened.0 ≡ response r
        → loop W c start (suc left) attempt last s ≡ (returned r, opened.1)
    unfolding loop
    loop_response r e = ground (arith, e)

    pub loop_decisive :
        (exc : Exc)
        → opened.0 ≡ failure exc
        → is_retryable exc ≡ false
        → loop W c start (suc left) attempt last s ≡ (raised exc, opened.1)
    unfolding loop
    loop_decisive exc e d = ground (arith, e, d)

    pub loop_last :
        (exc : Exc)
        → opened.0 ≡ failure exc
        → is_retryable exc ≡ true
        → attempt ≡ c.attempts
        → loop W c start (suc left) attempt last s
          ≡ (retry_exhausted c.attempts (W.clock opened.1 - start) exc, opened.1)
    unfolding loop
    loop_last exc e d k = ground (arith, e, d, k)

    pub loop_again :
        (exc : Exc)
        → opened.0 ≡ failure exc
        → is_retryable exc ≡ true
        → attempt ≢ c.attempts
        → loop W c start (suc left) attempt last s
          ≡ loop W c start left (attempt + 1) (some exc) (pause W c attempt opened.1)
    unfolding loop
    loop_again exc e d k = ground (arith, e, d, k)

  pub Attempt-cases :
      (a : Attempt W.Response)
      → ((r : W.Response) × (a ≡ response r))
        ⊎ ((exc : Exc) × (a ≡ failure exc) × (is_retryable exc ≡ false))
        ⊎ ((exc : Exc) × (a ≡ failure exc) × (is_retryable exc ≡ true))
  Attempt-cases (response r) = inl (r, refl)
  Attempt-cases (failure exc) = elim (Bool-cases (is_retryable exc)) [
    | inl t ↦ inr (inr (exc, refl, t))
    | inr f ↦ inr (inl (exc, refl, f))
  ]

  Ends-more :
      (c : Config) (allowed k : ℕ) (given : Attempt W.Response) (out : Outcome W.Response)
      → Ends c allowed k given out
      → Ends c (suc allowed) (suc k) given out
  Ends-more c allowed k given (returned r) (b, e) = (omega arith, e)
  Ends-more c allowed k given (raised exc) (b, e) = (omega arith, e)
  Ends-more c allowed k given (retry_exhausted n elapsed last) (b, e) = (omega arith, e)
  Ends-more c allowed k given value_error h = absurd h

  IsDecided-more :
      (c : Config) (allowed attempt : ℕ) (s : W.State) (exc : Exc) (out : Outcome W.Response)
      → (W.opener c.per_attempt_timeout s).0 ≡ failure exc
      → is_retryable exc ≡ true
      → IsDecided c allowed
          (attempt + 1)
          (pause W c attempt (W.opener c.per_attempt_timeout s).1)
          out
      → IsDecided c (suc allowed) attempt s out
  IsDecided-more c allowed attempt s exc out e d (k, (t, (more, ends))) = (
    suc k,
    (
      t,
      ((exc, (e, (d, more))), Ends-more c allowed k (W.opener c.per_attempt_timeout t).0 out ends),
    ),
  )

  loop-IsDecided :
      (c : Config) (start left attempt : ℕ) (last : Option Exc) (s : W.State)
      → attempt + left ≡ c.attempts
      → IsDecided c (suc left) attempt s (loop W c start (suc left) attempt last s).0
  loop-IsDecided c start zero attempt last s h =
      elim (Attempt-cases (W.opener c.per_attempt_timeout s).0) [
        | inl (r, e) ↦
            rw (loop_response c start zero attempt last s r e) (0, (s, (refl, (omega arith, e))))
        | inr (inl (exc, e, d)) ↦
            rw (loop_decisive c start zero attempt last s exc e d)
              (0, (s, (refl, (omega arith, (e, d)))))
        | inr (inr (exc, e, d)) ↦
            rw (loop_last c start zero attempt last s exc e d (omega arith))
              (0, (s, (refl, (refl, (refl, (e, d))))))
      ]
  loop-IsDecided c start (suc left) attempt last s h =
      elim (Attempt-cases (W.opener c.per_attempt_timeout s).0) [
        | inl (r, e) ↦
            rw (loop_response c start (suc left) attempt last s r e)
              (0, (s, (refl, (omega arith, e))))
        | inr (inl (exc, e, d)) ↦
            rw (loop_decisive c start (suc left) attempt last s exc e d)
              (0, (s, (refl, (omega arith, (e, d)))))
        | inr (inr (exc, e, d)) ↦
            rw (loop_again c start (suc left) attempt last s exc e d (omega arith)) (
              IsDecided-more c (suc left) attempt s exc _ e d
                (loop-IsDecided c start left (attempt + 1) (some exc) _ (omega arith)))
      ]

  pub request-loop :
      (c : Config) (left : ℕ) (s : W.State)
      → c.attempts ≡ suc left
      → request W c s ≡ loop W c (W.clock s) (suc left) 1 none s
  unfolding request
  request-loop c left s e = ground (arith, e)

  -- With at least one attempt, a request ends behind a number of requests that all fail on the
  -- network, and by what the next one gives: it returns that response; it raises that failure, which
  -- is not transient; or, that request being the last one allowed, it ends in `RetryExhausted` with
  -- the number of attempts and that failure, which is transient.
  pub request-IsDecided :
      (c : Config) (s : W.State) → 0 < c.attempts → IsDecided c c.attempts 1 s (request W c s).0
  request-IsDecided c s h =
      let (left, e) = positive c.attempts h in
      rw (request-loop c left s e) (
        subst (λ n. IsDecided c n 1 s (loop W c (W.clock s) (suc left) 1 none s).0) (sym e)
          (loop-IsDecided c (W.clock s) left 1 none s (omega arith)))
