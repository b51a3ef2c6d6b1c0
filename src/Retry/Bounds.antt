-- ===== src/Retry/Bounds.antt =====
-- How often `request` of scripts/lib/http_retry.py asks, and how long it can take.
use ci_workflows.Base.{
  ℕ, zero, suc, ◌+◌, ◌*◌, ◌≤◌, ◌<◌, ◌≡◌, inl, inr, arith, Option, none, some, positive, subst, sym,
}
use ci_workflows.Retry.{Exc, World, Outcome, retry_exhausted, Config, backoff, pause, loop, request}
use ci_workflows.Retry.Outcomes.{
  loop_response, loop_decisive, loop_last, loop_again, Attempt-cases, request-loop,
}

-- The waits that can lie between the next attempts.
pub waits : Config → ℕ → ℕ → ℕ
waits c attempt zero = 0
waits c attempt (suc left) = backoff c attempt + waits c (attempt + 1) left

module _ (W : World) where
  -- A count of the requests that were made: only the opener makes one.
  pub record IsCount (opens : W.State → ℕ) : Type 0 where
    pub opener_opens : (t : ℕ) (s : W.State) → opens (W.opener t s).1 ≡ opens s + 1
    pub sleep_opens : (d : ℕ) (s : W.State) → opens (W.sleep d s) ≡ opens s
    pub jitter_opens : (lo hi : ℕ) (s : W.State) → opens (W.jitter lo hi s).1 ≡ opens s

  -- A ledger of the waits that are asked for: a call of `sleep` adds its argument, nothing else adds
  -- to it, and `random.uniform(low, high)` lies between its bounds.
  pub record IsLedger (asked : W.State → ℕ) : Type 0 where
    pub opener_asks : (t : ℕ) (s : W.State) → asked (W.opener t s).1 ≡ asked s
    pub sleep_asks : (d : ℕ) (s : W.State) → asked (W.sleep d s) ≡ asked s + d
    pub jitter_asks : (lo hi : ℕ) (s : W.State) → asked (W.jitter lo hi s).1 ≡ asked s
    pub jitter_range : (lo hi : ℕ) (s : W.State) → lo ≤ hi → (W.jitter lo hi s).0 ≤ hi

module _ (W : World) (opens : W.State → ℕ) (N : IsCount W opens) where
  pause-opens : (c : Config) (attempt : ℕ) (s : W.State) → opens (pause W c attempt s) ≡ opens s
  unfolding pause
  pause-opens c attempt s =
      let (d, t) = W.jitter 0 (backoff c attempt) s in
      omega (arith, N.sleep_opens d t, N.jitter_opens 0 (backoff c attempt) s)

  -- The requests between two counts, by the end: as many as allowed if they ran out.
  abbrev pub IsSpent : ℕ → ℕ → ℕ → Outcome W.Response → Type 0
  IsSpent from allowed to (retry_exhausted n elapsed last) = to ≡ from + allowed
  IsSpent from allowed to _ = (from < to) × (to ≤ from + allowed)

  IsSpent-more :
      (from allowed to n : ℕ) (o : Outcome W.Response)
      → n ≡ from + 1
      → IsSpent n allowed to o
      → IsSpent from (suc allowed) to o
  IsSpent-more from allowed to n (retry_exhausted k elapsed last) e h = omega arith
  IsSpent-more from allowed to n _ e h = omega arith

  loop-opens :
      (c : Config) (start left attempt : ℕ) (last : Option Exc) (s : W.State)
      → attempt + left ≡ c.attempts
      → let (result, t) = loop W c start (suc left) attempt last s in
        IsSpent (opens s) (suc left) (opens t) result
  loop-opens c start zero attempt last s h =
      let n = N.opener_opens c.per_attempt_timeout s in
      elim (Attempt-cases W (W.opener c.per_attempt_timeout s).0) [
        | inl (r, e) ↦ rw (loop_response W c start zero attempt last s r e) (omega arith)
        | inr (inl (exc, e, d)) ↦
            rw (loop_decisive W c start zero attempt last s exc e d) (omega arith)
        | inr (inr (exc, e, d)) ↦
            rw (loop_last W c start zero attempt last s exc e d (omega arith)) (omega arith)
      ]
  loop-opens c start (suc left) attempt last s h =
      let n = N.opener_opens c.per_attempt_timeout s in
      elim (Attempt-cases W (W.opener c.per_attempt_timeout s).0) [
        | inl (r, e) ↦ rw (loop_response W c start (suc left) attempt last s r e) (omega arith)
        | inr (inl (exc, e, d)) ↦
            rw (loop_decisive W c start (suc left) attempt last s exc e d) (omega arith)
        | inr (inr (exc, e, d)) ↦
            let s' = (W.opener c.per_attempt_timeout s).1 in
            rw (loop_again W c start (suc left) attempt last s exc e d (omega arith)) (
              IsSpent-more (opens s) (suc left) _ _ _ (omega (arith, pause-opens c attempt s')) (
                loop-opens c start left (attempt + 1) (some exc) (pause W c attempt s')
                  (omega arith)))
      ]

  -- With `attempts` at least 1 and a count that only the opener moves, by one: a request makes at
  -- least one HTTP request and at most `attempts`; one that ends in
  -- `RetryExhausted` has made exactly `attempts`.
  pub request-opens :
      (c : Config) (s : W.State)
      → 0 < c.attempts
      → let (result, t) = request W c s in IsSpent (opens s) c.attempts (opens t) result
  request-opens c s h =
      let (left, e) = positive c.attempts h in
      rw (request-loop W c left s e) (
        subst
          (λ n.
            let (result, t) = loop W c (W.clock s) (suc left) 1 none s in
            IsSpent (opens s) n (opens t) result)
          (sym e) (loop-opens c (W.clock s) left 1 none s (omega arith)))

module _ (W : World) (asked : W.State → ℕ) (L : IsLedger W asked) where
  pause-asked :
      (c : Config) (attempt : ℕ) (s : W.State)
      → asked (pause W c attempt s) ≤ asked s + backoff c attempt
  unfolding pause
  pause-asked c attempt s =
      let (d, t) = W.jitter 0 (backoff c attempt) s in
      omega (
        arith,
        L.sleep_asks d t,
        L.jitter_asks 0 (backoff c attempt) s,
        L.jitter_range 0 (backoff c attempt) s (omega arith),
      )

  loop-asked :
      (c : Config) (start left attempt : ℕ) (last : Option Exc) (s : W.State)
      → attempt + left ≡ c.attempts
      → asked (loop W c start (suc left) attempt last s).1 ≤ asked s + waits c attempt left
  unfolding waits
  loop-asked c start zero attempt last s h =
      let n = L.opener_asks c.per_attempt_timeout s in
      elim (Attempt-cases W (W.opener c.per_attempt_timeout s).0) [
        | inl (r, e) ↦ rw (loop_response W c start zero attempt last s r e) (omega arith)
        | inr (inl (exc, e, d)) ↦
            rw (loop_decisive W c start zero attempt last s exc e d) (omega arith)
        | inr (inr (exc, e, d)) ↦
            rw (loop_last W c start zero attempt last s exc e d (omega arith)) (omega arith)
      ]
  loop-asked c start (suc left) attempt last s h =
      let n = L.opener_asks c.per_attempt_timeout s in
      elim (Attempt-cases W (W.opener c.per_attempt_timeout s).0) [
        | inl (r, e) ↦ rw (loop_response W c start (suc left) attempt last s r e) (omega arith)
        | inr (inl (exc, e, d)) ↦
            rw (loop_decisive W c start (suc left) attempt last s exc e d) (omega arith)
        | inr (inr (exc, e, d)) ↦
            let s' = (W.opener c.per_attempt_timeout s).1 in
            rw (loop_again W c start (suc left) attempt last s exc e d (omega arith)) (
              omega (
                arith,
                pause-asked c attempt s',
                loop-asked c start left (attempt + 1) (some exc) (pause W c attempt s')
                    (omega arith),
              ))
      ]

  waits-cap : (c : Config) (attempt left : ℕ) → waits c attempt left ≤ left * c.backoff_cap
  unfolding waits backoff
  waits-cap c attempt zero = omega arith
  waits-cap c attempt (suc left) = ground (arith, waits-cap c (attempt + 1) left)

  -- With a ledger of the waits and a jitter in its range: a request asks for waits that together are
  -- no longer than the backoffs between its attempts, and these are no longer than the cap times
  -- the number of attempts but one.
  pub request-asked :
      (c : Config) (left : ℕ) (s : W.State)
      → c.attempts ≡ suc left
      → (asked (request W c s).1 ≤ asked s + waits c 1 left)
        × (waits c 1 left ≤ left * c.backoff_cap)
  request-asked c left s e = (
    rw (request-loop W c left s e) (loop-asked c (W.clock s) left 1 none s (omega arith)),
    waits-cap c 1 left,
  )
