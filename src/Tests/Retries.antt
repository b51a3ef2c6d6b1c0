-- ===== src/Tests/Retries.antt =====
-- scripts/lib/http_retry.py in a small world: a clock, a count of the requests, and the failures
-- that the next requests end in.
use ci_workflows.Retry.Recovery.{Recovers, request-returns}
use ci_workflows.Base.{ℕ, ◌+◌, ◌*◌, ◌≤◌, List, [], ◌∷◌, ◌≡◌, refl, arith}
use ci_workflows.Retry.{
  Exc, http_error, timeout_error, Attempt, response, failure, World, returned, retry_exhausted,
  defaults, is_retryable, backoff, pause, loop, request,
}
use ci_workflows.Retry.Outcomes.{IsDecided, request-IsDecided}
use ci_workflows.Retry.Bounds.{IsCount, IsLedger, IsSpent, waits, request-opens, request-asked}

pub record Net : Type 0 where
  pub now : ℕ
  pub made : ℕ
  pub asked : ℕ
  pub failures : List Exc

answer : List Exc → Attempt ℕ × List Exc
answer [] = (response 200, [])
answer (exc ∷ rest) = (failure exc, rest)

-- A request takes its whole time, and a sleep, too; the jitter is the upper end.
abbrev net : World
net = record {
  State = Net;
  Response = ℕ;
  opener = λ t s. (
    (answer s.failures).0,
    record s { now = s.now + t; made = s.made + 1; failures = (answer s.failures).1 },
  );
  sleep = λ d s. record s { now = s.now + d; asked = s.asked + d };
  jitter = λ lo hi s. (hi, s);
  clock = λ s. s.now;
}

net-IsCount : IsCount net (λ s. s.made)
net-IsCount = record {
  opener_opens = λ t s. refl;
  sleep_opens = λ d s. refl;
  jitter_opens = λ lo hi s. refl;
}

net-IsLedger : IsLedger net (λ s. s.asked)
net-IsLedger = record {
  opener_asks = λ t s. refl;
  sleep_asks = λ d s. refl;
  jitter_asks = λ lo hi s. refl;
  jitter_range = λ lo hi s h. omega arith;
}

-- A timeout, a server error, and an answer then.
abbrev flaky : Net
flaky = record { now = 0; made = 0; asked = 0; failures = timeout_error ∷ http_error 503 ∷ [] }

-- No answer in four requests.
abbrev dead : Net
dead = record {
  now = 0;
  made = 0;
  asked = 0;
  failures = timeout_error ∷ timeout_error ∷ timeout_error ∷ timeout_error ∷ [];
}

flaky_test :
    request net defaults flaky
    ≡ (returned 200, record { now = 33000; made = 3; asked = 3000; failures = [] })
unfolding request loop pause backoff is_retryable answer
flaky_test = refl

dead_test : request net defaults dead ≡ (
  retry_exhausted 4 47000 timeout_error,
  record { now = 47000; made = 4; asked = 7000; failures = [] },
)
unfolding request loop pause backoff is_retryable answer
dead_test = refl

request-opens_example :
    let (result, t) = request net defaults dead in
    IsSpent net (λ s. s.made) net-IsCount 0 4 t.made result
request-opens_example = request-opens net (λ s. s.made) net-IsCount defaults dead (omega arith)

request-asked_example :
    ((request net defaults flaky).1.asked ≤ 0 + waits defaults 1 3)
    × (waits defaults 1 3 ≤ 3 * 6000)
request-asked_example = request-asked net (λ s. s.asked) net-IsLedger defaults 3 flaky refl

request-IsDecided_example : IsDecided net defaults 4 1 flaky (request net defaults flaky).0
request-IsDecided_example = request-IsDecided net defaults flaky (omega arith)

flaky-Recovers : Recovers net defaults 200 2 1 flaky
unfolding pause backoff is_retryable answer
flaky-Recovers = (timeout_error, (refl, (refl, (http_error 503, (refl, (refl, refl))))))

request-returns_example : (request net defaults flaky).0 ≡ returned 200
request-returns_example = request-returns net defaults 200 2 flaky (omega arith) flaky-Recovers
