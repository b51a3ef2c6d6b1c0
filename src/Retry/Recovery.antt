-- ===== src/Retry/Recovery.antt =====
-- `request` of scripts/lib/http_retry.py in a world that recovers.
use ci_workflows.Base.{
  ℕ, zero, suc, ◌+◌, ◌<◌, ◌≤◌, true, ◌≡◌, refl, arith, Option, none, some, positive,
}
use ci_workflows.Retry.{
  Exc, response, failure, World, returned, Config, is_retryable, loop, pause, request,
}
use ci_workflows.Retry.Outcomes.{loop_response, loop_again, request-loop}

module _ (W : World) (c : Config) (r : W.Response) where
  -- A world in which so many requests fail on the network and the next one gets the response, with
  -- the waits of `request` between them.
  abbrev pub Recovers : ℕ → ℕ → W.State → Type 0
  Recovers zero attempt s = (W.opener c.per_attempt_timeout s).0 ≡ response r
  Recovers (suc k) attempt s =
      (exc : Exc) × (((W.opener c.per_attempt_timeout s).0 ≡ failure exc)
        × ((is_retryable exc ≡ true)
            × Recovers k (attempt + 1) (pause W c attempt (W.opener c.per_attempt_timeout s).1)))

  loop-returns :
      (k start left attempt : ℕ) (last : Option Exc) (s : W.State)
      → attempt + left ≡ c.attempts
      → k ≤ left
      → Recovers k attempt s
      → (loop W c start (suc left) attempt last s).0 ≡ returned r
  loop-returns zero start left attempt last s h b e =
      rw (loop_response W c start left attempt last s r e) refl
  loop-returns (suc k) start zero attempt last s h b e = absurd (omega arith)
  loop-returns (suc k) start (suc left) attempt last s h b (exc, (e, (t, more))) =
      rw (loop_again W c start (suc left) attempt last s exc e t (omega arith)) (
        loop-returns k start left (attempt + 1) (some exc)
          (pause W c attempt (W.opener c.per_attempt_timeout s).1) (omega arith) (omega arith) more)

  -- A request gets its response as soon as the network gives one: where fewer requests than are
  -- allowed fail on it and the next one is answered, that answer is returned.
  pub request-returns :
      (k : ℕ) (s : W.State) → k < c.attempts → Recovers k 1 s → (request W c s).0 ≡ returned r
  request-returns k s h e =
      let (left, n) = positive c.attempts (omega arith) in
      rw (request-loop W c left s n)
        (loop-returns k (W.clock s) left 1 none s (omega arith) (omega arith) e)
