-- ===== src/Retry/Transient.antt =====
-- Which failures are retried: `is_retryable` of scripts/lib/http_retry.py.
use ci_workflows.Base.{◌≤◌, ◌<◌, true, ◌≡◌, ◌↔◌, refl, arith}
use ci_workflows.Retry.{
  Exc, http_error, ssl_cert_verification_error, url_error, url_error_text, other_error,
  is_retryable,
}

-- The error at the bottom of the wrappers.
pub root_cause : Exc → Exc
root_cause (url_error reason) = root_cause reason
root_cause exc = exc

-- A cause says something about the network: a server error, a handshake that broke off, a name
-- that was not resolved, or a connection that was not made or was lost. An answer of another
-- status, a certificate that is refused and a mistake of the caller do not.
abbrev pub IsNetworkCause : Exc → Type 0
IsNetworkCause (http_error code) = (500 ≤ code) × (code < 600)
IsNetworkCause ssl_cert_verification_error = ⊥
IsNetworkCause (url_error reason) = ⊥
IsNetworkCause (url_error_text reason) = ⊥
IsNetworkCause (other_error what) = ⊥
IsNetworkCause _ = Unit

-- A failure is retried exactly when the error at the bottom of its `URLError`s, however many, is a
-- network cause.
is_retryable_iff : (exc : Exc) → (is_retryable exc ≡ true) ↔ IsNetworkCause (root_cause exc)
unfolding is_retryable root_cause
is_retryable_iff (url_error reason) = is_retryable_iff reason
is_retryable_iff (http_error code) = (λ h. ground arith, λ h. ground arith)
is_retryable_iff ssl_cert_verification_error = (λ h. cc, λ h. absurd h)
is_retryable_iff (url_error_text reason) = (λ h. cc, λ h. absurd h)
is_retryable_iff (other_error what) = (λ h. cc, λ h. absurd h)
is_retryable_iff _ = (λ h. tt, λ h. refl)
