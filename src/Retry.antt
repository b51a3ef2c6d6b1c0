-- ===== src/Retry.antt =====
-- scripts/lib/http_retry.py: one HTTP request, with bounded retries of transient failures.
-- Durations are numbers of milliseconds. What the caller injects, `opener`, `sleep`, `jitter` and
-- `clock`, acts on a world that is a parameter.
pub mod Transient
pub mod Outcomes
pub mod Bounds
pub mod Recovery
use ci_workflows.Base.{
  ℕ, zero, suc, ◌+◌, ◌-◌, ◌*◌, ◌^◌, Bool, true, false, not, ◌&&◌, ◌==◌, ltb, leb, if◌then◌else◌,
  Option, none, some,
}
use ci_workflows.Base.Text.{Str}

abbrev pub default_attempts : ℕ
default_attempts = 4

abbrev pub default_per_attempt_timeout : ℕ
default_per_attempt_timeout = 10000

abbrev pub default_backoff_base : ℕ
default_backoff_base = 1000

abbrev pub default_backoff_cap : ℕ
default_backoff_cap = 6000

-- The exceptions by their most derived class among those that `is_retryable` tells apart. A
-- `URLError` wraps an exception or a text.
pub data Exc : Type 0 where
  http_error : ℕ → Exc
  ssl_cert_verification_error ssl_error : Exc
  timeout_error gaierror connection_reset_error connection_aborted_error : Exc
  connection_refused_error broken_pipe_error : Exc
  url_error : Exc → Exc
  url_error_text : Str → Exc
  other_error : Str → Exc

unfoldable pub is_retryable : Exc → Bool
is_retryable (http_error code) = leb 500 code && ltb code 600
is_retryable ssl_cert_verification_error = false
is_retryable ssl_error = true
is_retryable timeout_error = true
is_retryable gaierror = true
is_retryable connection_reset_error = true
is_retryable connection_aborted_error = true
is_retryable connection_refused_error = true
is_retryable broken_pipe_error = true
is_retryable (url_error reason) = is_retryable reason
is_retryable (url_error_text reason) = false
is_retryable (other_error what) = false

-- What `opener(make_request(), timeout=...)` does: it returns, or it raises.
pub data Attempt (R : Type 0) : Type 0 where
  response : R → Attempt R
  failure : Exc → Attempt R

pub record World : Type 1 where
  pub State : Type 0
  pub Response : Type 0
  -- `opener` on a fresh request, by the timeout
  pub opener : ℕ → State → Attempt Response × State
  pub sleep : ℕ → State → State
  -- `jitter(low, high)`
  pub jitter : ℕ → ℕ → State → ℕ × State
  pub clock : State → ℕ

pub data Outcome (R : Type 0) : Type 0 where
  returned : R → Outcome R
  raised : Exc → Outcome R
  -- `RetryExhausted`: the attempts made, the time elapsed and the last error
  retry_exhausted : ℕ → ℕ → Exc → Outcome R
  -- `attempts must be at least 1`
  value_error : Outcome R

-- The keyword arguments. `attempts` below 1 is 0 here.
pub record Config : Type 0 where
  pub attempts : ℕ
  pub per_attempt_timeout : ℕ
  pub backoff_base : ℕ
  pub backoff_cap : ℕ

abbrev pub defaults : Config
defaults = record {
  attempts = default_attempts;
  per_attempt_timeout = default_per_attempt_timeout;
  backoff_base = default_backoff_base;
  backoff_cap = default_backoff_cap;
}

abbrev pub min : ℕ → ℕ → ℕ
min a b = if leb a b then a else b

-- `min(backoff_cap, backoff_base * (2 ** (attempt - 1)))`
unfoldable pub backoff : Config → ℕ → ℕ
backoff c attempt = min c.backoff_cap (c.backoff_base * 2 ^ (attempt - 1))

module _ (W : World) where
  -- The wait between two attempts.
  unfoldable pub pause : Config → ℕ → W.State → W.State
  pause c attempt s = let (delay, s') = W.jitter 0 (backoff c attempt) s in W.sleep delay s'

  -- The loop, with the attempts that are left and the number of the next one.
  unfoldable pub loop : Config → ℕ → ℕ → ℕ → Option Exc → W.State → Outcome W.Response × W.State
  loop c start zero attempt none s = (value_error, s)
  loop c start zero attempt (some last) s = (retry_exhausted c.attempts (W.clock s - start) last, s)
  loop c start (suc left) attempt last s =
      let (result, s') = W.opener c.per_attempt_timeout s in
      let again = λ (exc : Exc). loop c start left (attempt + 1) (some exc) (pause c attempt s') in
      elim result [
        | response r ↦ (returned r, s')
        | failure exc ↦
            let next = again exc in
            if not (is_retryable exc)
            then (raised exc, s')
            else if attempt == c.attempts
            then (retry_exhausted c.attempts (W.clock s' - start) exc, s')
            else next
      ]

  unfoldable pub request : Config → W.State → Outcome W.Response × W.State
  request c s =
      if ltb c.attempts 1 then (value_error, s) else loop c (W.clock s) c.attempts 1 none s
